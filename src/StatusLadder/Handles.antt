-- ===== src/StatusLadder/Handles.antt =====
-- packages/server/src/domain/status-ladder.ts: timers by their handles.
use whaloc.Base.{
  String, List, [], ◌∷◌, ◌++◌, Bool, none, some, ℕ, ◌+◌, ◌≤◌, ◌<◌, ◌≡◌, refl, sym, ap, ◌∙◌, arith,
  not, find, filter, map, get, delete, HasDistinctKeys, delete_absent, Bool-cases, Option-cases,
  inl, inr, eq_refl, ◌==◌, subst, eq→path,
}
use whaloc.StatusLadder.{Timer, has_handle, stop_timer}

abbrev pub entry : Timer → String × ℕ
entry t = (t.message_id, t.handle)

-- handles ascend from `lo` on and stay below `hi`
abbrev pub InOrder : ℕ → ℕ → List Timer → Type 0
InOrder lo hi [] = lo ≤ hi
InOrder lo hi (t ∷ ts) = (lo ≤ t.handle) × InOrder (t.handle + 1) hi ts

weaken-InOrder : (lo lo' hi : ℕ) (ts : List Timer) → lo' ≤ lo → InOrder lo hi ts → InOrder lo' hi ts
weaken-InOrder lo lo' hi [] le h = omega arith
weaken-InOrder lo lo' hi (t ∷ ts) le (a, h) = (omega arith, h)

pub filter-InOrder :
    (p : Timer → Bool) (lo hi : ℕ) (ts : List Timer)
    → InOrder lo hi ts
    → InOrder lo hi (filter p ts)
filter-InOrder p lo hi [] h = h
filter-InOrder p lo hi (t ∷ ts) (a, h) = elim (Bool-cases (p t)) [
  | inl kept ↦ rw kept (a, filter-InOrder p (t.handle + 1) hi ts h)
  | inr gone ↦
      rw gone (filter-InOrder p lo hi ts (weaken-InOrder (t.handle + 1) lo hi ts (omega arith) h))
]

pub append-InOrder :
    (lo hi : ℕ) (ts : List Timer) (t : Timer)
    → t.handle ≡ hi
    → InOrder lo hi ts
    → InOrder lo (hi + 1) (ts ++ t ∷ [])
append-InOrder lo hi [] t e h = (omega arith, omega arith)
append-InOrder lo hi (u ∷ ts) t e (a, h) = (a, append-InOrder (u.handle + 1) hi ts t e h)

-- no handle below the bound is in the list
filter_below :
    (h lo hi : ℕ) (ts : List Timer)
    → h < lo
    → InOrder lo hi ts
    → filter (λ t. not (has_handle h t)) ts ≡ ts
filter_below h lo hi [] lt o = refl
filter_below h lo hi (t ∷ ts) lt (a, o) =
    ground (arith, filter_below h (t.handle + 1) hi ts (omega arith) o)

get-bound :
    (k : String) (h lo hi : ℕ) (ts : List Timer)
    → InOrder lo hi ts
    → get k (map entry ts) ≡ some h
    → lo ≤ h
unfolding get
get-bound k h lo hi [] o e = absurd (ground (arith, e))
get-bound k h lo hi (t ∷ ts) (a, o) e = elim (Bool-cases (t.message_id == k)) [
  | inl same ↦ ground (arith, e, a, same)
  | inr other ↦
      let later = get-bound k h (t.handle + 1) hi ts o (ground (arith, e, other)) in omega arith
]

pub drop_head :
    (t : Timer) (ts : List Timer) (lo hi : ℕ)
    → t.handle < lo
    → InOrder lo hi ts
    → stop_timer (some t.handle) (t ∷ ts) ≡ ts
unfolding stop_timer
drop_head t ts lo hi lt o = ground (arith, filter_below t.handle lo hi ts lt o)

keep_head :
    (h : ℕ) (t : Timer) (ts : List Timer)
    → t.handle < h
    → stop_timer (some h) (t ∷ ts) ≡ t ∷ stop_timer (some h) ts
unfolding stop_timer
keep_head h t ts lt = ground arith

-- Dropping the timer that the map names for a message drops the entry of that message.
pub stop_timer-get :
    (k : String) (lo hi : ℕ) (ts : List Timer)
    → InOrder lo hi ts
    → HasDistinctKeys (map entry ts)
    → map entry (stop_timer (get k (map entry ts)) ts) ≡ delete k (map entry ts)
unfolding get delete stop_timer
stop_timer-get k lo hi [] o d = refl
stop_timer-get k lo hi (t ∷ ts) (a, o) (new, d) = elim (Bool-cases (t.message_id == k)) [
  | inl same ↦
      let absent : get k (map entry ts) ≡ none =
        subst (λ j. get j (map entry ts) ≡ none) (eq→path same) new in
      rw same (
        ap (map entry) (drop_head t ts (t.handle + 1) hi (omega arith) o)
        ∙ sym (delete_absent k (map entry ts) absent))
  | inr other ↦ elim (Option-cases (get k (map entry ts))) [
    | inl absent ↦
        rw (other, absent) (ap (λ m. entry t ∷ m) (sym (delete_absent k (map entry ts) absent)))
    | inr (h, found) ↦
        let bound : t.handle + 1 ≤ h = get-bound k h (t.handle + 1) hi ts o found in
        rw (other, found)
          (ap (map entry) (keep_head h t ts (omega arith))
            ∙ ap (λ m. entry t ∷ m)
                (ap (λ g. map entry (stop_timer g ts)) (sym found)
                  ∙ stop_timer-get k (t.handle + 1) hi ts o d))
  ]
]

pub map-append :
    (ts : List Timer) (t : Timer) → map entry (ts ++ t ∷ []) ≡ map entry ts ++ entry t ∷ []
map-append [] t = refl
map-append (u ∷ ts) t = ap (λ m. entry u ∷ m) (map-append ts t)

pub get-entry :
    (h : ℕ) (t : Timer) (ts : List Timer)
    → HasDistinctKeys (map entry ts)
    → find (has_handle h) ts ≡ some t
    → get t.message_id (map entry ts) ≡ some t.handle
unfolding get
get-entry h t [] d e = absurd (ground (arith, e))
get-entry h t (u ∷ ts) (new, d) e = elim (Bool-cases (has_handle h u)) [
  | inl here ↦
      let same : u ≡ t = ground (arith, e, here) in rw (← same) (rw (eq_refl u.message_id) refl)
  | inr later ↦
      let found = get-entry h t ts d (ground (arith, e, later)) in
      elim (Bool-cases (u.message_id == t.message_id)) [
        | inl same ↦ absurd (
            ground
              (arith, sym (subst (λ j. get j (map entry ts) ≡ none) (eq→path same) new) ∙ found))
        | inr other ↦ rw other found
      ]
]
