-- ===== src/Accounts/Writes.antt =====
-- packages/server/src/db/repositories/phone-number-repository.ts: which rows a call writes.
use whaloc.Base.{String, [], ◌∷◌, ◌++◌, none, some, inr, ◌≡◌, map, arith}
use whaloc.Database.PhoneNumbers.{
  PhoneNumberRecord, InsertPhoneNumberInput, UpdatePhoneNumberInput, find_row, find_by_id, new_row,
  insert, write, update,
}
use whaloc.Database.Tables.{Tables}
use whaloc.Accounts.{Failure, Outcome}
use whaloc.Accounts.Rows.{patch, insert_into}

-- a patch that returns has written one row
pub patch-returns :
    (missing : Failure) (id : String) (input : UpdatePhoneNumberInput) (t : Tables)
    (o : Outcome PhoneNumberRecord)
    → patch missing id input t ≡ inr o
    → (o.tables ≡ record t { phone_numbers = map (write id input) t.phone_numbers })
      × (find_by_id id (map (write id input) t.phone_numbers) ≡ some o.result)
unfolding patch update
patch-returns missing id input t o e = ground (arith, e)

pub insert_into-returns :
    (now : String) (input : InsertPhoneNumberInput) (t : Tables) (o : Outcome PhoneNumberRecord)
    → insert_into now input t ≡ inr o
    → (o.tables ≡ record t { phone_numbers = t.phone_numbers ++ new_row now input ∷ [] })
      × (find_row input.id t.phone_numbers ≡ none)
unfolding insert_into insert
insert_into-returns now input t o e = ground (arith, e)
