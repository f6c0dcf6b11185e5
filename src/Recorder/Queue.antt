-- ===== src/Recorder/Queue.antt =====
-- The interleavings of `persistTape`, `Close` and the goroutine of `drain`.
use httptape.Prelude.{
  ℕ, zero, suc, ◌≤◌, ◌≡◌, refl, sym, ap, ◌∙◌, true, false, List, [], ◌∷◌, ◌++◌, length,
  length-append, ltb, ltb→lt, arith, Bool-cases, inl, inr,
}
use mathlib.Core.List.{append_assoc}
use httptape.Tape.{Tape}
use httptape.Store.{Store}
use httptape.Recorder.{AsyncState, persist_tape, close_channel, drain_one}

module _ {S : Type 0} (store : Store S) (buf_size : ℕ) where
  abbrev pub new_state : S → AsyncState S
  new_state initial = record {
    tape_ch = [];
    closed = false;
    store_state = initial;
    accepted = [];
    dropped = [];
  }

  pub data QueueSteps (start : AsyncState S) : AsyncState S → Type 0 where
    begin : QueueSteps start start
    offers :
        {s : AsyncState S} (t : Tape)
        → QueueSteps start s
        → QueueSteps start (persist_tape buf_size t s)
    closes_channel : {s : AsyncState S} → QueueSteps start s → QueueSteps start (close_channel s)
    drains_one : {s : AsyncState S} → QueueSteps start s → QueueSteps start (drain_one store s)

  -- the store after the tapes are saved one after the other
  abbrev pub save_all : S → List Tape → S
  save_all s [] = s
  save_all s (t ∷ ts) = save_all (store.save false t s).1 ts

  save_all-append :
      (s : S) (xs ys : List Tape) → save_all s (xs ++ ys) ≡ save_all (save_all s xs) ys
  save_all-append s [] ys = refl
  save_all-append s (x ∷ xs) ys = save_all-append (store.save false x s).1 xs ys

  -- What was accepted is what was saved, in order, and what waits in the channel.
  pub record IsQueue (initial : S) (s : AsyncState S) : Type 0 where
    pub saved : List Tape
    pub split : s.accepted ≡ saved ++ s.tape_ch
    pub in_store : s.store_state ≡ save_all initial saved
    pub bounded : length s.tape_ch ≤ buf_size

  persist_tape-IsQueue :
      (initial : S) (t : Tape) (s : AsyncState S)
      → IsQueue initial s
      → IsQueue initial (persist_tape buf_size t s)
  unfolding persist_tape
  persist_tape-IsQueue initial t s q = elim (Bool-cases s.closed) [
    | inl e ↦
        rw e
          (record { saved = q.saved; split = q.split; in_store = q.in_store; bounded = q.bounded })
    | inr e ↦ elim (Bool-cases (ltb (length s.tape_ch) buf_size)) [
      | inl room ↦
          rw (e, room)
            (record {
              saved = q.saved;
              split = ap (λ l. l ++ t ∷ []) q.split ∙ append_assoc q.saved s.tape_ch (t ∷ []);
              in_store = q.in_store;
              bounded = omega (
                arith,
                length-append s.tape_ch (t ∷ []),
                ltb→lt (length s.tape_ch) buf_size room,
              );
            })
      | inr full ↦
          rw (e, full)
            (record {
              saved = q.saved;
              split = q.split;
              in_store = q.in_store;
              bounded = q.bounded;
            })
    ]
  ]

  drain_one-IsQueue :
      (initial : S) (s : AsyncState S) → IsQueue initial s → IsQueue initial (drain_one store s)
  unfolding drain_one
  drain_one-IsQueue initial s q = drained s.tape_ch refl
    where
      drained :
          (ch : List Tape)
          → s.tape_ch ≡ ch
          → IsQueue initial (elim ch [
            | [] ↦ s
            | t ∷ rest ↦ record s {
              tape_ch = rest;
              store_state = (store.save false t s.store_state).1;
            }
          ])
      drained [] e = q
      drained (t ∷ rest) e = record {
        saved = q.saved ++ t ∷ [];
        split = q.split ∙ ap (λ l. q.saved ++ l) e ∙ sym (append_assoc q.saved (t ∷ []) rest);
        in_store =
            ap (λ u. (store.save false t u).1) q.in_store
            ∙ sym (save_all-append initial q.saved (t ∷ []));
        bounded = omega (arith, ap length e, q.bounded);
      }

  QueueSteps-IsQueue :
      (initial : S) (s : AsyncState S) → QueueSteps (new_state initial) s → IsQueue initial s
  QueueSteps-IsQueue initial s begin = record {
    saved = [];
    split = refl;
    in_store = refl;
    bounded = omega arith;
  }
  QueueSteps-IsQueue initial s (offers {s = old} t steps) =
      persist_tape-IsQueue initial t old (QueueSteps-IsQueue initial old steps)
  QueueSteps-IsQueue initial s (closes_channel {s = old} steps) =
      let q = QueueSteps-IsQueue initial old steps in
      record { saved = q.saved; split = q.split; in_store = q.in_store; bounded = q.bounded }
  QueueSteps-IsQueue initial s (drains_one {s = old} steps) =
      drain_one-IsQueue initial old (QueueSteps-IsQueue initial old steps)

  -- rounds of `drain` until the channel is empty
  abbrev pub drain_rounds : ℕ → AsyncState S → AsyncState S
  drain_rounds zero s = s
  drain_rounds (suc n) s = drain_rounds n (drain_one store s)

  drain_rounds_lem :
      (ch : List Tape) (s : AsyncState S)
      → s.tape_ch ≡ ch
      → ((drain_rounds (length ch) s).tape_ch ≡ [])
        × ((drain_rounds (length ch) s).store_state ≡ save_all s.store_state ch)
  drain_rounds_lem [] s e = (e, refl)
  drain_rounds_lem (t ∷ rest) s e =
      let next : drain_one store s
          ≡ record s { tape_ch = rest; store_state = (store.save false t s.store_state).1 } =
        unfold drain_one in rw e refl in
      let rounds =
        drain_rounds_lem rest
          (record s { tape_ch = rest; store_state = (store.save false t s.store_state).1 }) refl in
      (
        ap (λ u. (drain_rounds (length rest) u).tape_ch) next ∙ rounds.0,
        ap (λ u. (drain_rounds (length rest) u).store_state) next ∙ rounds.1,
      )

  -- However offers, rounds of the goroutine and `Close` come after each other: as many rounds as there
  -- are tapes in the channel empty it after `Close`, and then the store is the initial one with every
  -- tape that was accepted saved in order.
  pub close_channel_flushes :
      (initial : S) (s : AsyncState S)
      → QueueSteps (new_state initial) s
      → ((drain_rounds (length s.tape_ch) (close_channel s)).tape_ch ≡ [])
        × ((drain_rounds (length s.tape_ch) (close_channel s)).store_state
            ≡ save_all initial s.accepted)
  close_channel_flushes initial s steps =
      let q = QueueSteps-IsQueue initial s steps in
      let rounds = drain_rounds_lem s.tape_ch (close_channel s) refl in
      (
        rounds.0,
        rounds.1
            ∙ ap (λ u. save_all u s.tape_ch) q.in_store
            ∙ sym (save_all-append initial q.saved s.tape_ch)
            ∙ ap (save_all initial) (sym q.split),
      )

  -- Once the channel is closed and empty, the store stays as it is.
  pub QueueSteps-quiet :
      (s later : AsyncState S)
      → s.closed ≡ true
      → s.tape_ch ≡ []
      → QueueSteps s later
      → (later.closed ≡ true) × (later.tape_ch ≡ []) × (later.store_state ≡ s.store_state)
  QueueSteps-quiet s later c e begin = (c, e, refl)
  QueueSteps-quiet s later c e (offers {s = old} t steps) =
      offered old t (QueueSteps-quiet s old c e steps)
    where
      offered :
          (old : AsyncState S) (t : Tape)
          → (old.closed ≡ true) × (old.tape_ch ≡ []) × (old.store_state ≡ s.store_state)
          → ((persist_tape buf_size t old).closed ≡ true)
            × ((persist_tape buf_size t old).tape_ch ≡ [])
            × ((persist_tape buf_size t old).store_state ≡ s.store_state)
      offered old t h = unfold persist_tape in rw h.0 (refl, h.1, h.2)
  QueueSteps-quiet s later c e (closes_channel {s = old} steps) =
      let h = QueueSteps-quiet s old c e steps in (refl, h.1, h.2)
  QueueSteps-quiet s later c e (drains_one {s = old} steps) =
      drained old (QueueSteps-quiet s old c e steps)
    where
      drained :
          (old : AsyncState S)
          → (old.closed ≡ true) × (old.tape_ch ≡ []) × (old.store_state ≡ s.store_state)
          → ((drain_one store old).closed ≡ true)
            × ((drain_one store old).tape_ch ≡ [])
            × ((drain_one store old).store_state ≡ s.store_state)
      drained old h = unfold drain_one in rw h.1 (h.0, refl, h.2)
