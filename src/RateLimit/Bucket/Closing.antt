-- ===== src/RateLimit/Bucket/Closing.antt =====
-- A closed bucket.
use pulse_monitor.Prelude.{◌+◌, ◌≤◌, ◌≡◌, refl, ◌∙◌, true, false, List, [], ◌∷◌, some, arith}
use pulse_monitor.RateLimit.Bucket.Bounds.{grants, count_ticks, grants-cons, run-nil, run-cons}
use pulse_monitor.RateLimit.Bucket.{
  Bucket, granted, cancelled, bucket_closed, Move, ticks, refills, stops, closes, waits, move, run,
}

-- Closed, and its goroutine has returned.
pub record IsStopped (b : Bucket) : Type 0 where
  pub is_closed : b.closed ≡ true
  pub returned : b.refilling ≡ false

move-IsStopped :
    (m : Move) (b : Bucket) {b' : Bucket}
    → IsStopped b
    → move m b ≡ some b'
    → IsStopped b' × (grants (m ∷ []) + b'.tokens ≤ b.tokens) × (count_ticks (m ∷ []) ≡ 0)
unfolding move
move-IsStopped (waits granted) b s h = ground arith
move-IsStopped (waits cancelled) b s h = ground arith
move-IsStopped (waits bucket_closed) b s h = ground arith
move-IsStopped ticks b s h = ground arith
move-IsStopped refills b s h = ground arith
move-IsStopped stops b s h = ground arith
move-IsStopped closes b s h = ground arith

run-IsStopped :
    (ms : List Move) (b : Bucket) {b' : Bucket}
    → IsStopped b
    → run ms b ≡ some b'
    → IsStopped b' × (grants ms + b'.tokens ≤ b.tokens)
run-IsStopped [] b s h = rw (← run-nil b h) (s, omega arith)
run-IsStopped (m ∷ ms) b s h =
    let (c, e, h') = run-cons m ms b h in
    let (s', l, _) = move-IsStopped m b s e in
    let (s'', l') = run-IsStopped ms c s' h' in (s'', omega (arith, grants-cons m ms))

run-close :
    (b : Bucket)
    → b.refilling ≡ true
    → run (closes ∷ stops ∷ []) b ≡ some (record b { closed = true; refilling = false })
unfolding run
run-close b r = ground arith

run-close_then :
    (b : Bucket) (ms : List Move)
    → b.refilling ≡ true
    → run ms (record b { closed = true; refilling = false }) ≡ run (closes ∷ stops ∷ ms) b
unfolding run
run-close_then b ms r = ground arith

wait-closed : (b : Bucket) → b.closed ≡ true → move (waits bucket_closed) b ≡ some b
unfolding move
wait-closed b h = ground arith

-- After Close the refill goroutine can return at its next round, whether or not a tick is pending.
-- From then on no tick adds a token: the calls of Wait that return nil share the tokens that are
-- left, and at every later moment a call of Wait can return ErrClosed, so none blocks for ever.
pub close_stops :
    (b : Bucket) (ms : List Move) {b' : Bucket}
    → b.refilling ≡ true
    → run (closes ∷ stops ∷ ms) b ≡ some b'
    → (grants ms + b'.tokens ≤ b.tokens)
      × (move (waits bucket_closed) b' ≡ some b')
      × (run (closes ∷ stops ∷ []) b ≡ some (record b { closed = true; refilling = false }))
close_stops b ms r h =
    let stopped = run-close b r in
    let (s, l) =
      run-IsStopped ms (record b { closed = true; refilling = false })
        (record { is_closed = refl; returned = refl }) (run-close_then b ms r ∙ h) in
    (l, wait-closed _ s.is_closed, stopped)
