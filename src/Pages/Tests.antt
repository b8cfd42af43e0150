-- ===== src/Pages/Tests.antt =====
-- A walk of two pages (crates/ingestion/src/driver.rs).
use explorer_backend.Base.{Text, [], codes, if◌then◌else◌, none, some, ℕ, ◌==◌, ◌↔◌, ◌∷◌, ◌≡◌, ◌≤◌}
use explorer_backend.Pages.{PageReply, all_rows, balance_max_pages, collect_account_pages, page}
use explorer_backend.Pages.Walks.{Walk, collect_account_pages_complete}

abbrev two_pages : ℕ → Text → PageReply Unit ℕ
two_pages number cursor =
    if number == 1 then page (some (5 ∷ [])) (some (codes "b")) else page (some (6 ∷ 7 ∷ [])) none

collect_account_pages_complete_example :
    (collect_account_pages (codes "http://node") (codes "P1") two_pages ≡ all_rows (5 ∷ 6 ∷ 7 ∷ []))
    ↔ ((n : ℕ) × Walk (codes "http://node") (codes "P1") two_pages 1 [] n (5 ∷ 6 ∷ 7 ∷ [])
        × (n ≤ balance_max_pages))
collect_account_pages_complete_example =
    collect_account_pages_complete (codes "http://node") (codes "P1") two_pages (5 ∷ 6 ∷ 7 ∷ [])
