-- ===== src/Pages.antt =====
-- The cursor walk of crates/ingestion/src/driver.rs (`collect_account_pages`,
-- `fetch_address_balances`). A node's answer to a page request depends on the page number and on
-- the cursor that is sent.
pub mod Walks
mod Tests
use explorer_backend.Base.{
  List, Option, Text, [], if◌then◌else◌, is_empty, none, not, some, suc, text_beq, zero, ℕ, ◌++◌,
}
use explorer_backend.Rpc.{RpcError, unterminated_pagination}

abbrev pub balance_max_pages : ℕ
balance_max_pages = 1000

-- `Ok(SdkCursorPaginatedResult { result, cursor })` or an error.
pub data PageReply (S T : Type 0) : Type 0 where
  page : (result : Option (List T)) (cursor : Option Text) → PageReply S T
  failed : RpcError S → PageReply S T

pub data Collected (S T : Type 0) : Type 0 where
  all_rows : List T → Collected S T
  refused : RpcError S → Collected S T

abbrev pub rows_of : {T : Type 0} → Option (List T) → List T
rows_of none = []
rows_of (some rows) = rows

module _ {S T : Type 0} (endpoint address : Text) (fetch_page : ℕ → Text → PageReply S T) where
  unterminated : ℕ → Collected S T
  unterminated pages = refused (unterminated_pagination endpoint address pages)

  -- What the cursor of a page means for the walk.
  abbrev on_cursor : ℕ → Text → Option Text → List T → (Text → Collected S T) → Collected S T
  on_cursor page_number cursor none rows continue = all_rows rows
  on_cursor page_number cursor (some next) rows continue =
      if is_empty next
      then all_rows rows
      else if not (text_beq next cursor)
      then continue next
      else unterminated page_number

  abbrev on_page :
      ℕ → Text → List T → PageReply S T → (List T → Text → Collected S T) → Collected S T
  on_page page_number cursor rows (failed error) continue = refused error
  on_page page_number cursor rows (page result next) continue =
      on_cursor page_number cursor next (rows ++ rows_of result) (continue (rows ++ rows_of result))

  -- The loop over the page numbers; the last argument is the number of pages left.
  collect_from : ℕ → List T → Text → ℕ → Collected S T
  collect_from page_number rows cursor zero = unterminated balance_max_pages
  collect_from page_number rows cursor (suc left) =
      on_page page_number cursor rows (fetch_page page_number cursor)
        λ more next. collect_from (suc page_number) more next left

  unfoldable pub collect_account_pages : Collected S T
  unfolding collect_from unterminated
  collect_account_pages = collect_from 1 [] [] balance_max_pages
