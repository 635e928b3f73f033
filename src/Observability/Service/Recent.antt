-- ===== src/Observability/Service/Recent.antt =====
-- The event list is the recent end of what was recorded.
use nexus_cloud.Base.{
  ltb, Bool-cases, ltb→lt, ltb→le, length, drop, length-append, length-drop, ℕ, zero, suc, ◌+◌, ◌-◌,
  min, ◌≡◌, refl, ap, inl, inr, List, [], ◌∷◌, ◌++◌, arith,
}
use nexus_cloud.Observability.Types.{ObservabilityEvent}
use nexus_cloud.Observability.Service.{push_event, max_state_events}

drop-prefix {ℓ} : {A : Type ℓ} (n : ℕ) (xs : List A) → (gone : List A) × (xs ≡ gone ++ drop n xs)
drop-prefix zero xs = ([], refl)
drop-prefix (suc n) [] = ([], refl)
drop-prefix (suc n) (x ∷ xs) = let (gone, e) = drop-prefix n xs in (x ∷ gone, ap (λ l. x ∷ l) e)

-- Recording an event drops only events at the front: what was listed and then the new event is
-- what was dropped and then what is listed now. At most 500 events are listed, and fewer only if
-- fewer were recorded; so none is dropped below the cap.
pub push_event_recent :
    (event : ObservabilityEvent) (events : List ObservabilityEvent)
    → ((gone : List ObservabilityEvent) × (events ++ event ∷ [] ≡ gone ++ push_event event events))
      × (length (push_event event events) ≡ min 500 (length events + 1))
unfolding push_event
push_event_recent event events =
    let pushed = events ++ event ∷ [] in
    elim (Bool-cases (ltb max_state_events (length pushed))) [
      | inl e ↦ rw e (
        drop-prefix (length pushed - max_state_events) pushed,
        omega (
          arith,
          length-drop (length pushed - max_state_events) pushed,
          length-append events (event ∷ []),
          ltb→lt max_state_events (length pushed) e,
        ),
      )
      | inr e ↦ rw e (
        ([], refl),
        omega (arith, length-append events (event ∷ []), ltb→le max_state_events (length pushed) e),
      )
    ]
