-- ===== src/Accounts/Steps.antt =====
-- packages/server/src/domain/phone-number-service.ts: the calls that change the phone numbers, as
-- the steps that the tables take.
use whaloc.Base.{String, ℕ, ◌≡◌, inr}
use whaloc.Database.PhoneNumbers.{PhoneNumberRecord}
use whaloc.Database.Tables.{Tables}
use whaloc.Accounts.{Outcome, Call}
use whaloc.Accounts.Format.{CreateRequest}
use whaloc.Accounts.Quality.{QualityRequest}
use whaloc.Accounts.PhoneNumbers.{
  RequestCodeRequest, PhoneNumberCreateRequest, PhoneNumberUpdateRequest, add_to_waba, request_code,
  verify_code, register, deregister, create, edit, delete, update_quality,
}

-- a call of the service; the time and the minted id are those of the moment
pub data NumberCall : Type 0 where
  adding : String → String → String → CreateRequest → NumberCall
  asking : String → RequestCodeRequest → NumberCall
  confirming : String → String → NumberCall
  registering deregistering : String → NumberCall
  creating : String → String → PhoneNumberCreateRequest → NumberCall
  editing : String → PhoneNumberUpdateRequest → NumberCall
  deleting : String → NumberCall
  rating : ℕ → String → QualityRequest → NumberCall

module _ (derive : String → String) where
  abbrev pub run : NumberCall → Tables → Call PhoneNumberRecord
  run (adding now fresh waba_id request) t = add_to_waba now fresh waba_id request t
  run (asking id request) t = request_code derive id request t
  run (confirming id code) t = verify_code id code t
  run (registering id) t = register id t
  run (deregistering id) t = deregister id t
  run (creating now fresh input) t = create now fresh input t
  run (editing id input) t = edit id input t
  run (deleting id) t = delete id t
  run (rating now id request) t = update_quality now id request t

  -- the tables after calls that return; a call that throws leaves them
  pub data Reaches : Tables → Tables → Type 0 where
    here : {t : Tables} → Reaches t t
    after :
        {t u : Tables} (call : NumberCall) (done : Outcome PhoneNumberRecord)
        → Reaches t u
        → run call u ≡ inr done
        → Reaches t done.tables
