-- ===== src/MessageQueue/Enqueue/Waiting.antt =====
-- `enqueue` that waits for space.
use meshtastic_matrix_relay.Prelude.{
  ℕ, ◌+◌, ◌≤◌, ◌≡◌, ◌≢◌, refl, Option, some, List, [], ◌∷◌, arith, ◌⊎◌, inl, inr,
}
use meshtastic_matrix_relay.MessageQueue.{Queue}
use meshtastic_matrix_relay.MessageQueue.Enqueue.{
  Request, Wake, Verdict, accepted, refused, must_wait, attempt, wake_up, retry, enqueue,
  enqueue_recovered,
}

-- One of the wakes comes when the time is up.
abbrev pub Reaches : ℕ → List Wake → Type 0
Reaches deadline [] = ⊥
Reaches deadline (w ∷ ws) = (deadline ≤ w.now) ⊎ Reaches deadline ws

wake_up_late :
    (r : Request) (since t : ℕ) (w : Wake) (q : Queue)
    → r.timeout ≡ some t
    → since + t ≤ w.now
    → (wake_up r since w q).1 ≢ must_wait
unfolding wake_up
wake_up_late r since t w q e h = ground arith

retry_answers :
    (r : Request) (since t : ℕ) (ws : List Wake) (q : Queue) (v : Verdict)
    → r.timeout ≡ some t
    → (v ≢ must_wait) ⊎ Reaches (since + t) ws
    → (retry r since ws (q, v)).1 ≢ must_wait
unfolding retry
retry_answers r since t [] q v e (inl h) = h
retry_answers r since t [] q v e (inr h) = absurd h
retry_answers r since t (w ∷ ws) q accepted e h = λ p. cc
retry_answers r since t (w ∷ ws) q refused e h = λ p. cc
retry_answers r since t (w ∷ ws) q must_wait e (inl h) = absurd (h refl)
retry_answers r since t (w ∷ ws) q must_wait e (inr (inl h)) =
    let (q', v') = wake_up r since w q in
    retry_answers r since t ws q' v' e (inl (wake_up_late r since t w q e h))
retry_answers r since t (w ∷ ws) q must_wait e (inr (inr h)) =
    let (q', v') = wake_up r since w q in retry_answers r since t ws q' v' e (inr h)

recovered_answers :
    (r : Request) (now t : ℕ) (ws : List Wake) (q : Queue)
    → r.timeout ≡ some t
    → Reaches (now + t) ws
    → (enqueue_recovered r now ws q).1 ≢ must_wait
unfolding enqueue_recovered
recovered_answers r now t ws q e h =
    ground
      (arith, retry_answers r now t ws (attempt r now now q).0 (attempt r now now q).1 e (inr h))

-- A call with a timeout answers: it is still waiting after no sequence of wakes of which one
-- comes when the timeout has passed.
pub enqueue_answers :
    (r : Request) (loop : Option ℕ) (now t : ℕ) (ws : List Wake) (q : Queue)
    → r.timeout ≡ some t
    → Reaches (now + t) ws
    → (enqueue r loop now ws q).1 ≢ must_wait
unfolding enqueue
enqueue_answers r loop now t ws q e h = recovered_answers r now t ws _ e h
