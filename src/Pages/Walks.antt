-- ===== src/Pages/Walks.antt =====
-- `collect_account_pages` (crates/ingestion/src/driver.rs) returns complete walks and nothing else.
use mathlib.Core.List.{append_assoc}
use explorer_backend.Base.{
  Bool-cases, List, Option, Text, [], ap, arith, false, if◌then◌else◌, inl, inr, is_empty, none,
  not, refl, some, subst, suc, sym, text_beq, text_beq_iff, zero, ℕ, ◌++◌, ◌↔◌, ◌∙◌, ◌∷◌, ◌≡◌, ◌≢◌,
  ◌≤◌, ◌⊎◌,
}
use explorer_backend.Pages.{
  Collected, PageReply, all_rows, balance_max_pages, collect_account_pages, collect_from, failed,
  on_cursor, on_page, page, refused, rows_of, unterminated,
}
use explorer_backend.Rpc.{RpcError}

abbrev pub Ends : Option Text → Type 0
Ends cursor = (cursor ≡ none) ⊎ (cursor ≡ some [])

module _ {S T : Type 0} (endpoint address : Text) (fetch_page : ℕ → Text → PageReply S T) where
  -- A walk of `n` pages from a cursor that the node itself ends, with all of its rows.
  pub data Walk : ℕ → Text → ℕ → List T → Type 0 where
    last :
        (page_number : ℕ) (cursor : Text) (result : Option (List T)) (end : Option Text)
        (rows : List T)
        → fetch_page page_number cursor ≡ page result end
        → Ends end
        → rows ≡ rows_of result
        → Walk page_number cursor 1 rows
    more :
        (page_number : ℕ) (cursor next : Text) (n : ℕ) (result : Option (List T))
        (rest rows : List T)
        → fetch_page page_number cursor ≡ page result (some next)
        → next ≢ []
        → next ≢ cursor
        → Walk (suc page_number) next n rest
        → rows ≡ rows_of result ++ rest
        → Walk page_number cursor (suc n) rows

  not-is_empty : (s : Text) → s ≢ [] → is_empty s ≡ false
  not-is_empty [] h = absurd (h refl)
  not-is_empty (c ∷ s) h = refl

  text_beq-distinct : (s t : Text) → text_beq s t ≡ false → s ≢ t
  text_beq-distinct s t e z = ground (arith, (text_beq_iff s t).1 z)

  is_empty-not : (s : Text) → is_empty s ≡ false → s ≢ []
  is_empty-not s h z = cc

  on_cursor-Ends :
      (n : ℕ) (cursor : Text) (end : Option Text) (rows : List T) (k : Text → Collected S T)
      → Ends end
      → on_cursor endpoint address fetch_page n cursor end rows k ≡ all_rows rows
  on_cursor-Ends n cursor end rows k (inl e) = rw e
  on_cursor-Ends n cursor end rows k (inr e) = rw e

  on_cursor-next :
      (n : ℕ) (cursor next : Text) (rows : List T) (k : Text → Collected S T)
      → next ≢ []
      → next ≢ cursor
      → on_cursor endpoint address fetch_page n cursor (some next) rows k ≡ k next
  on_cursor-next n cursor next rows k e d =
      ground (arith, not-is_empty next e, text_beq_iff next cursor)

  Walk-collected :
      (page_number : ℕ) (cursor : Text) (n left : ℕ) (so_far rows : List T)
      → Walk page_number cursor n rows
      → n ≤ left
      → collect_from endpoint address fetch_page page_number so_far cursor left
        ≡ all_rows (so_far ++ rows)
  unfolding collect_from
  Walk-collected page_number cursor _ zero so_far rows (last _ _ result end _ f e r) h =
      absurd (omega arith)
  Walk-collected page_number cursor _ (suc left) so_far rows (last _ _ result end _ f e r) h =
      rw (f, r) (on_cursor-Ends page_number cursor end _ _ e)
  Walk-collected page_number cursor _ zero so_far rows (more _ _ next n result rest _ f e d w r) h =
      absurd (omega arith)
  Walk-collected page_number cursor _ (suc left) so_far rows
        (more _ _ next n result rest _ f e d w r) h =
      rw (f, r)
        (on_cursor-next page_number cursor next (so_far ++ rows_of result)
            (λ x.
              collect_from endpoint address fetch_page (suc page_number) (so_far ++ rows_of result)
                x left)
            e d
          ∙ Walk-collected (suc page_number) next n left (so_far ++ rows_of result) rest w
              (omega arith)
          ∙ ap all_rows (append_assoc so_far (rows_of result) rest))

  -- A complete set of rows from a cursor, in at most `left` pages.
  abbrev Complete : ℕ → Text → ℕ → List T → List T → Type 0
  Complete page_number cursor left so_far out =
      (n : ℕ) × (rows : List T) × Walk page_number cursor n rows
      × (n ≤ left)
      × (out ≡ so_far ++ rows)

  -- The page that leads to a complete rest of the walk.
  more-Complete :
      (page_number : ℕ) (cursor : Text) (left : ℕ) (so_far out : List T) (result : Option (List T))
      (next : Text)
      → fetch_page page_number cursor ≡ page result (some next)
      → is_empty next ≡ false
      → text_beq next cursor ≡ false
      → Complete (suc page_number) next left (so_far ++ rows_of result) out
      → Complete page_number cursor (suc left) so_far out
  more-Complete page_number cursor left so_far out result next f e d (n, rows, w, le, eq) = (
    suc n,
    rows_of result ++ rows,
    more page_number cursor next n result rows (rows_of result ++ rows) f (is_empty-not next e)
        (text_beq-distinct next cursor d) w refl,
    omega arith,
    eq ∙ append_assoc so_far (rows_of result) rows,
  )

  refused-absurd : {error : RpcError S} {out : List T} → refused error ≢ all_rows out
  refused-absurd e = cc

  on_page-Complete :
      (page_number : ℕ) (cursor : Text) (left : ℕ) (so_far out : List T) (r : PageReply S T)
      (continue : List T → Text → Collected S T)
      → fetch_page page_number cursor ≡ r
      → ((rows : List T) (next : Text)
          → continue rows next ≡ all_rows out
          → Complete (suc page_number) next left rows out)
      → on_page endpoint address fetch_page page_number cursor so_far r continue ≡ all_rows out
      → Complete page_number cursor (suc left) so_far out
  unfolding unterminated
  on_page-Complete page_number cursor left so_far out (failed error) continue f ih h = cc
  on_page-Complete page_number cursor left so_far out (page result none) continue f ih h =
      (1, rows_of result, last page_number cursor result none _ f (inl refl) refl, omega arith, cc)
  on_page-Complete page_number cursor left so_far out (page result (some [])) continue f ih h = (
    1,
    rows_of result,
    last page_number cursor result (some []) _ f (inr refl) refl,
    omega arith,
    cc,
  )
  on_page-Complete page_number cursor left so_far out (page result (some (c ∷ next))) continue f ih
        h =
      elim (Bool-cases (text_beq (c ∷ next) cursor))
        as (λ _. Complete page_number cursor (suc left) so_far out) [
          | inl e ↦ absurd (
              refused-absurd (
                ap
                  (λ b.
                    if not b
                    then continue (so_far ++ rows_of result) (c ∷ next)
                    else unterminated endpoint address fetch_page page_number)
                  (sym e)
                ∙ h))
          | inr e ↦ more-Complete page_number cursor left so_far out result (c ∷ next) f refl e (
              ih (so_far ++ rows_of result) (c ∷ next) (
                ap
                  (λ b.
                    if not b
                    then continue (so_far ++ rows_of result) (c ∷ next)
                    else unterminated endpoint address fetch_page page_number)
                  (sym e)
                ∙ h))
        ]

  collected-Complete :
      (page_number : ℕ) (cursor : Text) (left : ℕ) (so_far out : List T)
      → collect_from endpoint address fetch_page page_number so_far cursor left ≡ all_rows out
      → Complete page_number cursor left so_far out
  unfolding collect_from unterminated
  collected-Complete page_number cursor zero so_far out e = cc
  collected-Complete page_number cursor (suc left) so_far out e =
      on_page-Complete page_number cursor left so_far out (fetch_page page_number cursor)
        (λ rows next. collect_from endpoint address fetch_page (suc page_number) rows next left)
        refl (λ rows next. collected-Complete (suc page_number) next left rows out) e

  -- The walk returns rows exactly if the node ends a walk of at most a thousand pages, none of
  -- which repeats the cursor it was asked with, and then they are all rows of all of its pages in
  -- order.
  pub collect_account_pages_complete :
      (out : List T)
      → (collect_account_pages endpoint address fetch_page ≡ all_rows out)
        ↔ ((n : ℕ) × Walk 1 [] n out × (n ≤ balance_max_pages))
  unfolding collect_account_pages
  collect_account_pages_complete out = (
    (λ e.
        let (n, rows, w, le, eq) = collected-Complete 1 [] balance_max_pages [] out e in
        (n, subst (Walk 1 [] n) (sym eq) w, le)),
    λ (n, w, le). Walk-collected 1 [] n balance_max_pages [] out w le,
  )
