-- ===== src/Relaying/SplitPlans.antt =====
-- The requests for a text that is split into fragments.
use meshtastic_matrix_relay.Prelude.{
  ℕ, suc, ◌<◌, ◌≡◌, ◌⊎◌, ap, subst, true, Option, none, some, List, [], ◌∷◌, length, map, ltb,
  if_rule, arith, ok, err, Result,
}
use meshtastic_matrix_relay.Text.{Text}
use meshtastic_matrix_relay.PyValue.{Fields}
use meshtastic_matrix_relay.Fragments.{Settings, SplitError, split_text_for_meshtastic}
use meshtastic_matrix_relay.Fragments.Loop.{HasRoom}
use meshtastic_matrix_relay.Fragments.Split.{FragmentsFit, NeverAgrees, sent_text, split_text_fits}
use meshtastic_matrix_relay.Relaying.{Event, Facade, Request}
use meshtastic_matrix_relay.Relaying.Sending.{
  Route, fragmentation, fragment_request, delay_of, with_delivery, of_split, planned,
}
use meshtastic_matrix_relay.Relaying.InTurn.{payloads, payloads-with_delivery, payloads-of_split}

-- The queue is asked to keep this distance in front of each request.
abbrev pub Delayed : ℕ → List Request → Type 0
Delayed delay [] = Unit
Delayed delay (r ∷ rs) = (r.min_delay ≡ some delay) × Delayed delay rs

abbrev DelayedPlan : ℕ → Option (List Request) → Type 0
DelayedPlan delay none = Unit
DelayedPlan delay (some rs) = Delayed delay rs

Delayed-fragment_request :
    (f : Facade) (r : Route) (event : Event) (d : ℕ) (delay : Option ℕ) (delivery : Option Fields)
    (ts : List Text)
    → delay ≡ some d
    → Delayed d (map (fragment_request f r event delay delivery) ts)
unfolding fragment_request
Delayed-fragment_request f r event d delay delivery [] e = tt
Delayed-fragment_request f r event d delay delivery (t ∷ ts) e =
    (e, Delayed-fragment_request f r event d delay delivery ts e)

Delayed-with_delivery :
    (f : Facade) (r : Route) (event : Event) (s : Settings) (fragments : List Text)
    (delivery : Option (Option Fields))
    → fragmentation f r.config ≡ some s
    → 1 < length fragments
    → DelayedPlan s.fragment_delay (with_delivery f r event fragments delivery)
unfolding with_delivery
Delayed-with_delivery f r event s [] delivery e more = tt
Delayed-with_delivery f r event s (t ∷ ts) none e more = tt
Delayed-with_delivery f r event s (t ∷ ts) (some delivery) e more =
    Delayed-fragment_request f r event s.fragment_delay _ delivery (t ∷ ts) (
      if_rule (λ delay. delay ≡ some s.fragment_delay) (ltb 1 (length (t ∷ ts)))
        (λ _. ap delay_of e) (λ one. absurd (ground (arith, one, more))))

Delayed-planned :
    (f : Facade) (r : Route) (event : Event) (s : Settings) (plan : List Request)
    (split : List Text) (delivery : Option (Option Fields))
    → fragmentation f r.config ≡ some s
    → with_delivery f r event split delivery ≡ some plan
    → 1 < length (payloads plan)
    → Delayed s.fragment_delay plan
Delayed-planned f r event s plan split delivery on e more = subst (DelayedPlan s.fragment_delay) e (
    Delayed-with_delivery f r event s split delivery on (
      subst (λ (l : List Text). 1 < length l)
        (payloads-with_delivery f r event split delivery plan e) more))

planned_parts :
    (f : Facade) (r : Route) (event : Event) (s : Settings) (plan : List Request)
    (split : Result SplitError (List Text))
    → fragmentation f r.config ≡ some s
    → of_split f r event split ≡ some plan
    → 1 < length (payloads plan)
    → Delayed s.fragment_delay plan
unfolding of_split
planned_parts f r event s plan (err e) on h more = cc
planned_parts f r event s plan (ok fragments) on h more =
    Delayed-planned f r event s plan fragments _ on h more

-- Where the configuration splits messages and each prefix leaves room for a character, the requests
-- for a text have the sizes that `split_text_for_meshtastic` keeps: each payload fits, the last one
-- up to its suffix, unless in none of the eight rounds the number of chunks agreed with the estimate;
-- and where there are two or more, each asks for the configured delay.
pub planned-FragmentsFit :
    (f : Facade) (r : Route) (event : Event) (message : Text) (s : Settings) (plan : List Request)
    → fragmentation f r.config ≡ some s
    → s.enabled ≡ true
    → HasRoom f.ops s (suc (length (sent_text f.ops s message)))
    → planned f r event message ≡ some plan
    → (FragmentsFit f.ops s (length (payloads plan)) 1 (payloads plan)
        ⊎ NeverAgrees f.ops s 8 (sent_text f.ops s message) 1)
      × (1 < length (payloads plan) → Delayed s.fragment_delay plan)
unfolding planned
planned-FragmentsFit f r event message s plan on enabled room e = (
  split_text_fits f.ops s message (payloads plan) room enabled (
      subst (λ settings. split_text_for_meshtastic f.ops message settings ≡ ok (payloads plan)) on
        (payloads-of_split f r event _ plan e)),
  planned_parts f r event s plan _ on e,
)
