-- ===== src/ServiceAlerts/Drain.antt =====
-- The end of the sink's task (app/services/service_alerts.py, `_drain`).
use justup.Prelude.{
  ℕ, ◌+◌, ◌-◌, ◌*◌, ◌≤◌, ◌<◌, ◌≡◌, refl, Bool, true, false, Option, none, some, List, [], ◌∷◌, ◌==◌,
  leb, length, length-append, ◌++◌, subst, sym, arith, if◌then◌else◌, Bool-cases, inl, inr,
}
use justup.ServiceAlerts.{
  gave_up, write_failed, write_stored, Queued, Phase, idle, sleeping, writing, Sink, begin_next,
  discard, settle, fail, end_write, retry, go_on, drain, start_task, call, make_room, append,
  is_idle, without_first, Event, calls, goes_on, step, run, new_sink,
}

module _ {A : Type 0} where
  abbrev is_head : Queued A → List (Queued A) → Bool
  is_head q [] = false
  is_head q (p ∷ ps) = p.id == q.id

  -- How many alerts the task has to deal with: an alert that was dropped while it was written is
  -- one more.
  abbrev rounds : Phase A → List (Queued A) → ℕ
  rounds idle ps = length ps
  rounds sleeping ps = length ps
  rounds (writing q) ps = if is_head q ps then length ps else length ps + 1

  -- An alert takes at most thirty writes and as many waits.
  abbrev left : Phase A → List (Queued A) → ℕ → ℕ
  left idle ps attempts = 0
  left sleeping ps attempts = 60 * rounds sleeping ps - 2 * attempts
  left (writing q) ps attempts = 60 * rounds (writing q) ps - 2 * attempts - 1

  abbrev has_work : Phase A → List (Queued A) → Bool
  has_work idle [] = true
  has_work idle (p ∷ ps) = false
  has_work sleeping [] = false
  has_work sleeping (p ∷ ps) = true
  has_work (writing q) [] = false
  has_work (writing q) (p ∷ ps) = true

  begin_work : (ps : List (Queued A)) → has_work (begin_next ps) ps ≡ true
  begin_work [] = refl
  begin_work (p ∷ ps) = refl

  begin_left : (ps : List (Queued A)) → left (begin_next ps) ps 0 ≤ 60 * length ps
  begin_left [] = omega arith
  begin_left (p ∷ ps) = ground arith

  length-discard :
      (q : Queued A) (ps : List (Queued A))
      → length (discard q.id ps) + (if is_head q ps then 1 else 0) ≡ length ps
  length-discard q [] = omega arith
  length-discard q (p ∷ ps) = ground arith

  retry_left :
      (ps : List (Queued A)) (attempts : ℕ)
      → left (begin_next ps) ps attempts ≤ left sleeping ps attempts - 1
  retry_left [] attempts = omega arith
  retry_left (p ∷ ps) attempts = ground arith

  append_work :
      (phase : Phase A) (ps : List (Queued A)) (q : Queued A)
      → is_idle phase ≡ false
      → has_work phase (ps ++ q ∷ []) ≡ true
  append_work idle ps q h = cc
  append_work sleeping [] q h = refl
  append_work sleeping (p ∷ ps) q h = refl
  append_work (writing r) [] q h = refl
  append_work (writing r) (p ∷ ps) q h = refl

  length-without_first : (ps : List (Queued A)) → length (without_first ps) ≡ length ps - 1
  length-without_first [] = omega arith
  length-without_first (p ∷ ps) = omega arith

  sleeps :
      (q : Queued A) (ps : List (Queued A))
      → has_work (writing q) ps ≡ true
      → has_work sleeping ps ≡ true
  sleeps q [] h = h
  sleeps q (p ∷ ps) h = h

module _ {A D : Type 0} where
  record IsRunning (s : Sink A D) : Type 0 where
    pub bounded : s.attempts < 30
    pub works : has_work s.phase s.pending ≡ true
    pub fits : length s.pending ≤ 50

  abbrev steps_left : Sink A D → ℕ
  steps_left s = left s.phase s.pending s.attempts

  -- One step of the task: it goes on, and has a step less to do.
  record IsStep (n : ℕ) (s : Sink A D) : Type 0 where
    pub running : IsRunning s
    pub fewer : steps_left s ≤ n - 1

  settle-IsStep :
      (q : Queued A) (s : Sink A D)
      → s.attempts < 30
      → length s.pending ≤ 50
      → IsStep (left (writing q) s.pending s.attempts) (settle q.id s)
  unfolding settle
  settle-IsStep q s b f = record {
    running = record {
      bounded = omega arith;
      works = begin_work (discard q.id s.pending);
      fits = ground (arith, length-discard q s.pending);
    };
    fewer = ground (arith, length-discard q s.pending, begin_left (discard q.id s.pending));
  }

  fail-IsStep :
      (q : Queued A) (s : Sink A D)
      → s.attempts < 30
      → length s.pending ≤ 50
      → has_work (writing q) s.pending ≡ true
      → IsStep (left (writing q) s.pending s.attempts) (fail q s)
  unfolding fail
  fail-IsStep q s b f w =
      let given =
        settle-IsStep q (record s { log = gave_up q.id ∷ write_failed q.id ∷ s.log }) b f in
      elim (Bool-cases (leb 30 (s.attempts + 1))) [
        | inl e ↦ rw e given
        | inr e ↦ rw e (record {
          running = record { bounded = ground arith; works = sleeps q s.pending w; fits = f };
          fewer = ground arith;
        })
      ]

  end_write-IsStep :
      (q : Queued A) (o : Option D) (s : Sink A D)
      → s.attempts < 30
      → length s.pending ≤ 50
      → has_work (writing q) s.pending ≡ true
      → IsStep (left (writing q) s.pending s.attempts) (end_write q o s)
  unfolding end_write
  end_write-IsStep q none s b f w = fail-IsStep q s b f w
  end_write-IsStep q (some db) s b f w =
      settle-IsStep q (record s { db = db; log = write_stored q.id ∷ s.log }) b f

  retry-IsStep :
      (s : Sink A D)
      → s.attempts < 30
      → length s.pending ≤ 50
      → IsStep (left sleeping s.pending s.attempts) (retry s)
  unfolding retry
  retry-IsStep s b f = record {
    running = record { bounded = b; works = begin_work s.pending; fits = f };
    fewer = retry_left s.pending s.attempts;
  }

  start_task-IsRunning :
      (ps : List (Queued A)) (q : Queued A) (s : Sink A D)
      → s.pending ≡ ps ++ q ∷ []
      → s.attempts < 30
      → length s.pending ≤ 50
      → IsRunning (start_task s)
  unfolding start_task
  start_task-IsRunning ps q s e b f = elim (Bool-cases (is_idle s.phase)) [
    | inl t ↦ rw t (record { bounded = omega arith; works = begin_work s.pending; fits = f })
    | inr t ↦ rw t (record {
      bounded = b;
      works = subst (λ xs. has_work s.phase xs ≡ true) (sym e) (append_work s.phase ps q t);
      fits = f;
    })
  ]

  make_room_fits :
      (s : Sink A D)
      → s.attempts < 30
      → length s.pending ≤ 50
      → ((make_room s).attempts < 30) × (length (make_room s).pending < 50)
  unfolding make_room
  make_room_fits s b f = ground (arith, b, f, length-without_first s.pending)

  call-IsRunning : (alert : A) (s : Sink A D) → IsRunning s → IsRunning (call alert s)
  unfolding call append
  call-IsRunning alert s r =
      let t = make_room s in
      let m = make_room_fits s r.bounded r.fits in
      let q : Queued A = record { id = t.next_id; alert = alert } in
      start_task-IsRunning t.pending q
        (record t { pending = t.pending ++ q ∷ []; next_id = t.next_id + 1 }) refl m.0
        (omega (arith, m.1, length-append t.pending (q ∷ [])))

module _ {A D O : Type 0} (write : O → A → D → Option D) where
  go_on-IsStep :
      (phase : Phase A) (o : O) (s : Sink A D)
      → s.attempts < 30
      → length s.pending ≤ 50
      → has_work phase s.pending ≡ true
      → IsRunning s
      → left phase s.pending s.attempts ≡ left s.phase s.pending s.attempts
      → IsStep (left phase s.pending s.attempts) (go_on write phase o s)
  unfolding go_on
  go_on-IsStep idle o s b f w r e = record { running = r; fewer = omega (arith, e) }
  go_on-IsStep sleeping o s b f w r e = retry-IsStep s b f
  go_on-IsStep (writing q) o s b f w r e = end_write-IsStep q (write o q.alert s.db) s b f w

  drained :
      (ps : List (Queued A)) (phase : Phase A) (attempts : ℕ)
      → attempts < 30
      → has_work phase ps ≡ true
      → left phase ps attempts ≤ 0
      → (phase ≡ idle) × (ps ≡ [])
  drained [] idle attempts b w l = (refl, refl)
  drained (p ∷ ps) idle attempts b w l = absurd (ground arith)
  drained [] sleeping attempts b w l = absurd (ground arith)
  drained (p ∷ ps) sleeping attempts b w l = absurd (omega arith)
  drained [] (writing q) attempts b w l = absurd (ground arith)
  drained (p ∷ ps) (writing q) attempts b w l = absurd (ground arith)

  drain_ends :
      (os : List O) (s : Sink A D)
      → IsRunning s
      → steps_left s ≤ length os
      → ((drain write os s).phase ≡ idle) × ((drain write os s).pending ≡ [])
  unfolding drain
  drain_ends [] s r l = drained s.pending s.phase s.attempts r.bounded r.works l
  drain_ends (o ∷ os) s r l =
      let next = go_on-IsStep s.phase o s r.bounded r.fits r.works r refl in
      drain_ends os (go_on write s.phase o s) next.running (let f = next.fewer in omega arith)

  step-IsRunning : (e : Event write) (s : Sink A D) → IsRunning s → IsRunning (step write e s)
  unfolding step
  step-IsRunning (calls alert) s r = call-IsRunning alert s r
  step-IsRunning (goes_on o) s r =
      (go_on-IsStep s.phase o s r.bounded r.fits r.works r refl).running

  run-IsRunning :
      (es : List (Event write)) (s : Sink A D) → IsRunning s → IsRunning (run write es s)
  unfolding run
  run-IsRunning [] s r = r
  run-IsRunning (e ∷ es) s r = run-IsRunning es (step write e s) (step-IsRunning e s r)

  left_bounded :
      (phase : Phase A) (ps : List (Queued A)) (attempts : ℕ)
      → length ps ≤ 50
      → left phase ps attempts ≤ 3060
  left_bounded idle ps attempts f = omega arith
  left_bounded sleeping ps attempts f = omega arith
  left_bounded (writing q) ps attempts f = ground arith

-- The task of the sink ends: whatever was called before, and however the database behaves in each
-- write, after 3060 more steps without a new alert the task is done and no alert is pending.
pub sink_ends :
    {A D O : Type 0} (write : O → A → D → Option D) (es : List (Event write)) (os : List O) (db : D)
    → 3060 ≤ length os
    → ((drain write os (run write es (new_sink db))).phase ≡ idle)
      × ((drain write os (run write es (new_sink db))).pending ≡ [])
sink_ends write es os db h =
    let s = run write es (new_sink db) in
    let r =
      run-IsRunning write es (new_sink db)
        (record { bounded = omega arith; works = refl; fits = omega arith }) in
    drain_ends write os s r
      (let l = left_bounded write s.phase s.pending s.attempts r.fits in omega arith)
