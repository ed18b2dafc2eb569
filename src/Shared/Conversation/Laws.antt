-- ===== src/Shared/Conversation/Laws.antt =====
-- packages/shared/src/control-plane/conversations.ts: printing and parsing a conversation id.
use Prim.Native.Char.{code}
use Prim.Native.String.{[], ◌∷◌, ◌++◌}
use text.Mathlib.TextLemmas.{nil-append, cons-append}
use whaloc.Base.{
  String, some, get_or, ap, sym, ◌∙◌, ◌==◌, ◌&&◌, Bool-cases, inl, inr, eq→path, eq_iff, ◌≡◌, ◌≢◌,
  refl, arith,
}
use whaloc.Shared.Conversation.{conversation_id, split_colon, parts_of, parse_conversation_id}

abbrev pub NoColon : String → Type 0
NoColon [] = Unit
NoColon (c ∷ s) = (code c ≢ b':') × NoColon s

split_colon-append : (p w : String) → NoColon p → split_colon (p ++ ":" ++ w) ≡ some (p, w)
unfolding split_colon
split_colon-append [] w h = rw nil-append (rw cons-append (rw nil-append))
split_colon-append (c ∷ p) w (no_colon, h) =
    rw cons-append (ground (arith, split_colon-append p w h))

parts_of_pair : (a b : String) → a ≢ "" → b ≢ "" → parts_of (a, b) ≡ some (a, b)
unfolding parts_of
parts_of_pair [] b h k = absurd (h refl)
parts_of_pair (c ∷ a) [] h k = absurd (k refl)
parts_of_pair (c ∷ a) (d ∷ b) h k = refl

-- A non-empty phone number id without a colon and a non-empty wa_id come back from their
-- conversation id.
pub parse_conversation_id-conversation_id :
    (p w : String)
    → NoColon p
    → p ≢ ""
    → w ≢ ""
    → parse_conversation_id (conversation_id p w) ≡ some (p, w)
unfolding parse_conversation_id conversation_id
parse_conversation_id-conversation_id p w no_colon hp hw =
    rw (split_colon-append p w no_colon, parse_conversation_id) (parts_of_pair p w hp hw)

some_injective : {A : Type 0} {a b : A} → some a ≡ some b → a ≡ b
some_injective {a = a} h = ap (λ o. get_or o a) h

-- two conversations have one id only if their parts are the same
pub conversation_id-eq :
    (p w q k : String)
    → NoColon p
    → NoColon q
    → (conversation_id p w == conversation_id q k) ≡ (p == q && w == k)
unfolding conversation_id
conversation_id-eq p w q k hp hq = elim (Bool-cases (conversation_id p w == conversation_id q k)) [
  | inl same ↦
      let parts = some_injective (
        sym (split_colon-append p w hp)
        ∙ ap split_colon (eq→path same)
        ∙ split_colon-append q k hq) in
      rw (same, (eq_iff p q).1 (ap (λ x. x.0) parts), (eq_iff w k).1 (ap (λ x. x.1) parts)) refl
  | inr other ↦ elim (Bool-cases (p == q)) [
    | inr apart ↦ rw (other, apart) refl
    | inl first ↦ elim (Bool-cases (w == k)) [
      | inr apart ↦ rw (other, first, apart) refl
      | inl second ↦
          let joined : conversation_id p w ≡ conversation_id q k =
            rw (eq→path first, eq→path second) refl in
          absurd (cc ((eq_iff (conversation_id p w) (conversation_id q k)).1 joined, other))
    ]
  ]
]
