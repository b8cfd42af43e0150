-- ===== src/Api/OffsetPages.antt =====
-- Lists that are paged by offset: `clamp_limit` and `trim_offset_rows` of
-- crates/http-api/src/support.rs with `OffsetCursor`, as the list handlers of
-- crates/http-api/src/handlers.rs compose them. The rows that the database lists for a limit and an
-- offset are a parameter.
use explorer_backend.Api.OffsetCursor
use explorer_backend.Base.{
  Bool-cases, List, Option, Text, ap, arith, drop, drop-drop, false, if◌then◌else◌, inl, inr,
  length, length-drop, length-take, ltb, ltb→lt, lt→ltb, max, none, refl, some, suc, sym, take,
  take-append-drop, take-take_more, take_all, true, zero, ℕ, ◌++◌, ◌+◌, ◌-◌, ◌<◌, ◌^◌, ◌∙◌, ◌≡◌,
  ◌≤◌, nat_eq,
}
use explorer_backend.Base.Int.{ltb_ℤ, negsuc, pos, ℤ, ◌+ℤ◌}
use explorer_backend.Api.{Answer, bad, limit_outside_usize, minus, ok, ◌>>=◌}

abbrev clamp : ℤ → ℤ
clamp z = if ltb_ℤ z (pos 1) then pos 1 else if ltb_ℤ (pos 100) z then pos 100 else z

unfoldable pub clamp_limit : Option ℤ → ℤ
clamp_limit none = pos 50
clamp_limit (some limit) = clamp limit

-- Addition of two `i64` that are not negative, as it wraps in a release build.
abbrev wrap_i64 : ℤ → ℤ
wrap_i64 (pos n) = if ltb n (2 ^ 63) then pos n else minus (2 ^ 64 - n)
wrap_i64 (negsuc n) = negsuc n

unfoldable pub trim_offset_rows :
    {Row : Type 0} → List Row → ℤ → ℤ → Answer (List Row × Option Text)
trim_offset_rows rows (negsuc n) offset = bad limit_outside_usize
trim_offset_rows rows (pos limit) offset =
    let page = if ltb limit (length rows) then take limit rows else rows in
    ok (
      page,
      (if ltb limit (length rows)
          then some (OffsetCursor.encode (wrap_i64 (offset +ℤ pos (length page))))
          else none),
    )

-- What a list handler makes of its limit and cursor.
unfoldable pub list_page :
    {Row : Type 0} → (ℤ → ℤ → List Row) → Option ℤ → Option Text → Answer (List Row × Option Text)
list_page list_rows limit cursor = do
  offset ← OffsetCursor.parse_optional cursor
  trim_offset_rows (list_rows (clamp_limit limit +ℤ pos 1) offset) (clamp_limit limit) offset

prepend : {Row : Type 0} → List Row → Option (Answer (List Row)) → Option (Answer (List Row))
prepend page none = none
prepend page (some (bad why)) = some (bad why)
prepend page (some (ok rest)) = some (ok (page ++ rest))

follow :
    {Row : Type 0}
    → Answer (List Row × Option Text)
    → (Text → Option (Answer (List Row)))
    → Option (Answer (List Row))
follow (bad why) next_pages = some (bad why)
follow (ok (page, none)) next_pages = some (ok page)
follow (ok (page, some cursor)) next_pages = prepend page (next_pages cursor)

-- A client that follows the cursors from page to page, which stands here only to state what the pages
-- are; nothing if it is given a further cursor after so many pages.
unfoldable pub all_pages :
    {Row : Type 0} → (ℤ → ℤ → List Row) → Option ℤ → ℕ → Option Text → Option (Answer (List Row))
unfolding prepend follow
all_pages list_rows limit zero cursor = none
all_pages list_rows limit (suc pages_left) cursor =
    follow (list_page list_rows limit cursor)
      (λ next. all_pages list_rows limit pages_left (some next))

-- `LIMIT` and `OFFSET` over a list that stays as it is.
abbrev pub Lists : {Row : Type 0} → (ℤ → ℤ → List Row) → List Row → Type 0
Lists list_rows rows =
    (limit offset : ℕ) → list_rows (pos limit) (pos offset) ≡ take limit (drop offset rows)

clamp_bounds : (z : ℤ) → (n : ℕ) × (clamp z ≡ pos n) × (1 ≤ n) × (n ≤ 100)
clamp_bounds (pos z) =
    (if ltb z 1 then 1 else if ltb 100 z then 100 else z, ground arith, ground arith, ground arith)
clamp_bounds (negsuc z) = (1, ground arith, omega arith, omega arith)

clamp_limit_bounds :
    (limit : Option ℤ) → (n : ℕ) × (clamp_limit limit ≡ pos n) × (1 ≤ n) × (n ≤ 100)
unfolding clamp_limit
clamp_limit_bounds none = (50, refl, omega arith, omega arith)
clamp_limit_bounds (some limit) = clamp_bounds limit

pos_add : (a b : ℕ) → pos a +ℤ pos b ≡ pos (a + b)
unfolding ◌+ℤ◌
pos_add a b = ground arith

module _ {Row : Type 0} where
  -- The last page, and a page with more behind it.
  last_page :
      (rows : List Row) (limit : ℕ) (offset : ℤ)
      → length rows ≤ limit
      → trim_offset_rows (take (limit + 1) rows) (pos limit) offset ≡ ok (rows, none)
  unfolding trim_offset_rows
  last_page rows limit offset few =
      rw (take_all (limit + 1) rows (omega arith), no_more (length rows) limit few) refl
    where
      no_more : (a b : ℕ) → a ≤ b → ltb b a ≡ false
      no_more a b h = ground arith

  full_page :
      (rows : List Row) (limit offset : ℕ)
      → limit < length rows
      → offset + limit < 2 ^ 63
      → trim_offset_rows (take (limit + 1) rows) (pos limit) (pos offset)
        ≡ ok (take limit rows, some (OffsetCursor.encode (pos (offset + limit))))
  unfolding trim_offset_rows
  full_page rows limit offset more fits = rw (cut limit rows more) (
      ap
        (λ page. ok (page, some (OffsetCursor.encode (wrap_i64 (pos offset +ℤ pos (length page))))))
        (take-take_more limit rows)
      ∙ ap (λ z. ok (take limit rows, some (OffsetCursor.encode (wrap_i64 z))))
          (pos_add offset (length (take limit rows)))
      ∙ ap (λ n. ok (take limit rows, some (OffsetCursor.encode (wrap_i64 (pos (offset + n))))))
          (exactly limit rows more)
      ∙ ap (λ z. ok (take limit rows, some (OffsetCursor.encode z)))
          (unwrapped (offset + limit) fits))
    where
      cut : (n : ℕ) (xs : List Row) → n < length xs → ltb n (length (take (n + 1) xs)) ≡ true
      cut n xs h = lt→ltb _ _ (omega (arith, length-take (n + 1) xs))

      exactly : (n : ℕ) (xs : List Row) → n < length xs → length (take n xs) ≡ n
      exactly n xs h = omega (arith, length-take n xs)

      unwrapped : (n : ℕ) → n < 2 ^ 63 → wrap_i64 (pos n) ≡ pos n
      unwrapped n h = ground arith

  -- The pages from an offset on.
  all_pages-drop :
      (list_rows : ℤ → ℤ → List Row) (rows : List Row) (limit : Option ℤ) (fuel offset : ℕ)
      (cursor : Option Text)
      → Lists list_rows rows
      → OffsetCursor.parse_optional cursor ≡ ok (pos offset)
      → offset ≤ length rows
      → length rows < 2 ^ 63
      → 1 ≤ fuel
      → length rows - offset ≤ fuel
      → all_pages list_rows limit fuel cursor ≡ some (ok (drop offset rows))
  unfolding all_pages list_page
  all_pages-drop list_rows rows limit zero offset cursor lists at inside small one enough =
      absurd (omega arith)
  all_pages-drop list_rows rows limit (suc fuel) offset cursor lists at inside small one enough =
      let (n, clamped, low, high) = clamp_limit_bounds limit in
      elim (Bool-cases (ltb n (length (drop offset rows)))) [
        | inl more ↦
            let lt = ltb→lt n (length (drop offset rows)) more in
            let fits : offset + n < 2 ^ 63 = omega (arith, lt, length-drop offset rows) in
            rw
              (
                at,
                clamped,
                pos_add n 1,
                lists (n + 1) offset,
                full_page (drop offset rows) n offset lt fits,
              )
              (rw
                (all_pages-drop list_rows rows limit fuel (offset + n)
                  (some (OffsetCursor.encode (pos (offset + n)))) lists
                  (OffsetCursor.parse_optional-encode (offset + n) fits)
                  (omega (arith, lt, length-drop offset rows)) small
                  (omega (arith, lt, length-drop offset rows))
                  (omega (arith, lt, low, length-drop offset rows)))
                (ap (λ found. some (ok found))
                  (ap (◌++◌ (take n (drop offset rows))) (sym (drop-drop n offset rows))
                    ∙ take-append-drop n (drop offset rows))))
        | inr last ↦
            rw
              (
                at,
                clamped,
                pos_add n 1,
                lists (n + 1) offset,
                last_page (drop offset rows) n (pos offset) (ground (arith, last)),
              )
              refl
      ]

  -- With a database that lists a fixed sequence of fewer than 2^63 rows by limit and offset, a client
  -- that starts without a cursor and follows the cursors it is given, with any limit parameter, comes
  -- to a page without a cursor after no more pages than there are rows, or one if there are none, and
  -- has then got every row once, in order.
  pub all_pages_complete :
      (list_rows : ℤ → ℤ → List Row) (rows : List Row) (limit : Option ℤ)
      → Lists list_rows rows
      → length rows < 2 ^ 63
      → all_pages list_rows limit (max 1 (length rows)) none ≡ some (ok rows)
  unfolding OffsetCursor.parse_optional
  all_pages_complete list_rows rows limit lists small =
      all_pages-drop list_rows rows limit (max 1 (length rows)) 0 none lists refl (omega arith)
        small (omega arith) (omega arith)
