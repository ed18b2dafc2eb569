-- ===== src/Typing/Frames.antt =====
-- packages/server/src/domain/typing-service.ts: the bubbles of the web client.
use Prim.Native.Nat.{Ordering}
use mathlib.Core.Option
use whaloc.Base.{
  String, List, [], ◌∷◌, Option, none, ℕ, ◌≡◌, refl, sym, ap, ◌∙◌, get, get-put_same, get-put_other,
  get-delete_same, get-delete_other, false, Bool-cases, Option-cases, inl, inr, ◌==◌, find, subst,
  arith,
}
use whaloc.Shared.Entities.{TypingIndicator}
use whaloc.Shared.Conversation.{conversation_id}
use whaloc.Store.State.{AppState, WsEvent}
use whaloc.Store.Reducer.{apply_ws_event}
use whaloc.Store.Reducer.Preview.{get-typing_changed}
use whaloc.Typing.{
  Indicator, Service, Outcome, Step, task_is, drop, start, clear, dismiss, on_outbound_accepted,
}
use whaloc.Typing.Dismissals.{IsLinked}
use whaloc.Typing.Steps.{dismiss-clear, Step-IsLinked}

module _ (lc : String → String → Ordering) (iso : ℕ → String) (ttl : ℕ) where
  -- the client receives what was announced
  abbrev pub receive : List TypingIndicator → AppState → AppState
  receive [] state = state
  receive (t ∷ ts) state = receive ts (apply_ws_event lc state (WsEvent.typing_changed t))

  abbrev shown_at : Option Indicator → Option String
  shown_at o = Option.map (λ i. iso i.expires_at) o

  -- The client shows a bubble exactly where an indicator is active, with its expiry.
  abbrev pub Agrees : Service → AppState → Type 0
  Agrees s state =
      (k : String) → get k state.typing ≡ Option.map (λ i. iso i.expires_at) (get k s.active)

  get-drop_other :
      (key k : String) (s : Service)
      → (key == k) ≡ false
      → get k (drop key s).0.active ≡ get k s.active
  unfolding drop
  get-drop_other key k s other = elim (Option-cases (get key s.active)) [
    | inl absent ↦ rw absent refl
    | inr (i, found) ↦ rw found (get-delete_other key k s.active other)
  ]

  start-Agrees :
      (now : ℕ) (p c : String) (s : Service) (state : AppState)
      → Agrees s state
      → Agrees
          (start iso ttl now p c s).0.service
          (receive (start iso ttl now p c s).0.announced state)
  unfolding start
  start-Agrees now p c s state agrees k =
      get-typing_changed lc state _ k ∙ elim (Bool-cases (conversation_id p c == k)) [
        | inl same ↦ rw same (sym (ap shown_at (get-put_same (conversation_id p c) k _ _ same)))
        | inr other ↦ rw other (
            agrees k
            ∙ sym (
                ap shown_at (
                  get-put_other (conversation_id p c) k _ _ other
                  ∙ get-drop_other (conversation_id p c) k s other)))
      ]

  clear-Agrees :
      (p c : String) (s : Service) (state : AppState)
      → Agrees s state
      → Agrees (clear iso p c s).service (receive (clear iso p c s).announced state)
  unfolding clear drop
  clear-Agrees p c s state agrees k = elim (Option-cases (get (conversation_id p c) s.active)) [
    | inl absent ↦ rw absent (agrees k)
    | inr (i, found) ↦ rw found (
        get-typing_changed lc state _ k ∙ elim (Bool-cases (conversation_id p c == k)) [
          | inl same ↦
              rw same (sym (ap shown_at (get-delete_same (conversation_id p c) k s.active same)))
          | inr other ↦ rw other (
              agrees k
              ∙ sym (ap shown_at (get-delete_other (conversation_id p c) k s.active other)))
        ])
  ]

  dismiss_absent :
      (h : ℕ) (s : Service)
      → find (task_is h) s.tasks ≡ none
      → dismiss iso h s ≡ record { service = s; announced = [] }
  unfolding dismiss
  dismiss_absent h s absent = rw absent refl

  dismiss-Agrees :
      (h : ℕ) (s : Service) (state : AppState)
      → IsLinked s
      → Agrees s state
      → Agrees (dismiss iso h s).service (receive (dismiss iso h s).announced state)
  dismiss-Agrees h s state linked agrees = elim (Option-cases (find (task_is h) s.tasks)) [
    | inl absent ↦
        subst (λ (o : Outcome). Agrees o.service (receive o.announced state))
          (sym (dismiss_absent h s absent)) agrees
    | inr (t, found) ↦
        subst (λ (o : Outcome). Agrees o.service (receive o.announced state))
          (sym (dismiss-clear iso h t s linked found))
          (clear-Agrees t.phone_number_id t.contact_wa_id s state agrees)
  ]

  Step-Agrees :
      {s : Service} {o : Outcome}
      → Step iso ttl s o
      → (state : AppState) → IsLinked s
      → Agrees s state
      → Agrees o.service (receive o.announced state)
  unfolding on_outbound_accepted
  Step-Agrees {s = s} (Step.started now p c) state linked agrees =
      start-Agrees now p c s state agrees
  Step-Agrees {s = s} (Step.taken_down p c) state linked agrees = clear-Agrees p c s state agrees
  Step-Agrees {s = s} (Step.timed_out h) state linked agrees =
      dismiss-Agrees h s state linked agrees
  Step-Agrees {s = s} (Step.message_sent m) state linked agrees =
      clear-Agrees m.phone_number_id m.contact_wa_id s state agrees

  -- the service and a client that was there from the start
  pub data Reach : Service → AppState → Type 0 where
    opened :
        (state : AppState)
        → state.typing ≡ []
        → Reach (record { active = []; tasks = []; next_handle = 0 }) state
    after :
        {s : Service} {o : Outcome} {state : AppState}
        → Reach s state
        → Step iso ttl s o
        → Reach o.service (receive o.announced state)

  -- Whatever indicators were raised, cleared, dismissed or ended by a message: every indicator
  -- has its own task, due when it expires, and every task is that of an active indicator.
  pub Reach-IsLinked : {s : Service} {state : AppState} → Reach s state → IsLinked s
  unfolding get
  Reach-IsLinked (opened state e) = record {
    backed = λ k i e. absurd (ground (arith, e));
    owned = λ h t e. absurd (ground (arith, e));
    fresh = λ h le. refl;
  }
  Reach-IsLinked (after r s) = Step-IsLinked iso ttl s (Reach-IsLinked r)

  -- A client without bubbles that receives every announcement of a service without indicators
  -- shows at every time exactly the active indicators, each with its expiry.
  pub Reach-Agrees :
      {s : Service} {state : AppState}
      → Reach s state
      → (k : String) → get k state.typing ≡ Option.map (λ i. iso i.expires_at) (get k s.active)
  unfolding get
  Reach-Agrees (opened state e) k = rw e refl
  Reach-Agrees (after {state = state} r s) k =
      Step-Agrees s state (Reach-IsLinked r) (Reach-Agrees r) k
