-- ===== src/Relaying/InTurn.antt =====
-- The loop over the fragments of a reply, with a queue that may refuse.
use meshtastic_matrix_relay.Prelude.{
  ℕ, suc, ◌+◌, ◌<◌, ◌≡◌, refl, ap, Bool, true, false, Option, some, List, [], ◌∷◌, ◌++◌, length,
  map, none, sym, ◌∙◌, Result, ok, err,
}
use meshtastic_matrix_relay.Text.{Text}
use meshtastic_matrix_relay.PyValue.{Fields}
use meshtastic_matrix_relay.Fragments.{SplitError}
use meshtastic_matrix_relay.Relaying.{Event, Facade, Request}
use meshtastic_matrix_relay.Relaying.Sending.{Route, fragment_request, with_delivery, of_split}

-- The requests that are made of those that are planned, from the nth of the handler on, with the
-- answer whether all went well: they are the first ones, in order; all but the last are accepted; and
-- either none is left and the last is accepted too, or the last is refused.
pub record IsInTurn (f : Facade) (n : ℕ) (plan made : List Request) (answer : Bool) : Type 0 where
  pub left : List Request
  pub whole : plan ≡ made ++ left
  pub earlier : (k : ℕ) → suc k < length made → f.accepts (n + k) ≡ true
  pub success : answer ≡ true → (left ≡ []) × ((k : ℕ) → k < length made → f.accepts (n + k) ≡ true)
  pub refusal : answer ≡ false → (k : ℕ) × (length made ≡ suc k) × (f.accepts (n + k) ≡ false)

abbrev pub payloads : List Request → List Text
payloads rs = map (λ r. r.payload) rs

abbrev payloads_of : Option (List Request) → List Text
payloads_of none = []
payloads_of (some rs) = payloads rs

payloads-fragment_request :
    (f : Facade) (r : Route) (event : Event) (delay : Option ℕ) (delivery : Option Fields)
    (fragments : List Text)
    → payloads (map (fragment_request f r event delay delivery) fragments) ≡ fragments
unfolding fragment_request
payloads-fragment_request f r event delay delivery [] = refl
payloads-fragment_request f r event delay delivery (t ∷ ts) =
    ap (λ l. t ∷ l) (payloads-fragment_request f r event delay delivery ts)

pub payloads-with_delivery :
    (f : Facade) (r : Route) (event : Event) (fragments : List Text)
    (delivery : Option (Option Fields)) (plan : List Request)
    → with_delivery f r event fragments delivery ≡ some plan
    → payloads plan ≡ fragments
unfolding with_delivery
payloads-with_delivery f r event [] delivery plan h = ap payloads_of (sym h)
payloads-with_delivery f r event (t ∷ ts) none plan h = cc
payloads-with_delivery f r event (t ∷ ts) (some delivery) plan h =
    ap payloads_of (sym h) ∙ payloads-fragment_request f r event _ delivery (t ∷ ts)

pub payloads-of_split :
    (f : Facade) (r : Route) (event : Event) (split : Result SplitError (List Text))
    (plan : List Request)
    → of_split f r event split ≡ some plan
    → split ≡ ok (payloads plan)
unfolding of_split
payloads-of_split f r event (err e) plan h = cc
payloads-of_split f r event (ok fragments) plan h =
    ap ok (sym (payloads-with_delivery f r event fragments _ plan h))
