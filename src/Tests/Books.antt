-- ===== src/Tests/Books.antt =====
-- The ledger and its view at concrete rows.
use mathlib.Core.Int.{pos, negsuc}
use civio.Base.{◌≡◌, refl, true, none, some, List, [], ◌∷◌, keep}
use civio.Models.Enums.Calls.{community, user}
use civio.Schema.Ledger.{
  LedgerRow, Statement, insert, delete, IsValid, IsExtendedTo, after_statements,
  after_statements-IsValid,
}
use civio.Schema.Balances.{
  group_of, same_key_of, shown_by, summary, token_balances, token_balances-summary, IsUnique,
  token_balances-IsUnique,
}

abbrev topped_up : LedgerRow
topped_up = record {
  id = 1;
  scope = user;
  community_id = 3;
  user_id = some 2;
  delta = pos 500;
  balance_after = pos 500;
  reason = "top_up";
  external_ref = none;
  idempotency_key = some "k1";
  created_at = 10;
}

abbrev called : LedgerRow
called = record topped_up {
  id = 2;
  delta = negsuc 9;
  balance_after = pos 490;
  idempotency_key = none;
  created_at = 20;
}

abbrev granted : LedgerRow
granted = record called { id = 3; scope = community; user_id = none }

abbrev book : List LedgerRow
book = granted ∷ called ∷ topped_up ∷ []

book-IsValid : IsValid book
book-IsValid = (refl, refl, (refl, refl, (refl, refl, tt)))

abbrev attempts : List Statement
attempts = delete (λ e. true) ∷ insert (record called { id = 4 }) ∷ []

after_statements-IsValid_example :
    IsValid (after_statements attempts book) × IsExtendedTo book (after_statements attempts book)
after_statements-IsValid_example = after_statements-IsValid attempts book book-IsValid

token_balances-summary_example :
    shown_by same_key_of (group_of called) (token_balances book)
    ≡ summary (keep (λ e. same_key_of (group_of called) (group_of e)) book)
token_balances-summary_example = token_balances-summary (group_of called) book

token_balances-IsUnique_example : IsUnique (token_balances book)
token_balances-IsUnique_example = token_balances-IsUnique book (refl, (refl, (refl, tt)))
