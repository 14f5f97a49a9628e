-- ===== src/Spooler/Pacing.antt =====
-- Spacing and cooldown of the send paths (app/services/notifications/spooler.py).
use justup.Prelude.{
  ℕ, ◌+◌, ◌-◌, ◌*◌, ◌≤◌, ◌≡◌, refl, sym, ap, ◌∙◌, false, Option, none, some, List, [], ◌∷◌, min,
  max, take, if◌then◌else◌, arith, Bool-cases, inl, inr,
}
use justup.Text.{same_text, same_text_refl, same_text-eq}
use justup.DeliveryPolicy.{ChannelPolicy, max_cooldown_seconds}
use justup.Spooler.{
  second, ChannelState, State, find_channel, upsert, policy_of_key, is_cooling, spacing_left,
  pacing_wait, wait_of, record_attempt, attempted, cooled, set_cooldown,
}

find_channel-upsert :
    (k j : List ℕ) (f : Option ChannelState → ChannelState) (cs : List (List ℕ × ChannelState))
    → find_channel j (upsert k f cs)
      ≡ (if same_text k j then some (f (find_channel k cs)) else find_channel j cs)
unfolding find_channel upsert
find_channel-upsert k j f [] = refl
find_channel-upsert k j f ((i, c) ∷ cs) = elim (Bool-cases (same_text i k)) [
  | inl e ↦ rw (e, same_text-eq i k e) (ground arith)
  | inr e ↦
      let rest = find_channel-upsert k j f cs in
      elim (Bool-cases (same_text k j)) [
        | inl q ↦
            let apart : same_text i j ≡ false = rw (same_text-eq k j q) at e in
            rw (e, q, apart, rest, q) refl
        | inr q ↦ rw (e, q, rest, q) refl
      ]
]

abbrev pub pause_of : Option ChannelState → ℕ
pause_of none = 0
pause_of (some c) = elim c.cooldown_until [ none ↦ 0 | some until ↦ until ]

-- The time until which a send path is paused, or 0.
abbrev pub paused_until : List ℕ → State → ℕ
paused_until key st = pause_of (find_channel key st.channels)

pause_of-cooled :
    (o : Option ChannelState) (until : ℕ) (reason : List ℕ)
    → pause_of (some (cooled until reason o)) ≡ max (pause_of o) until
unfolding cooled
pause_of-cooled none until reason = omega arith
pause_of-cooled (some c) until reason = ground arith

-- `set_cooldown` only extends a pause: the send path is then paused until the later of the stored end
-- and the new one, which is at most a day away, and every other send path is paused as before.
pub set_cooldown_extends :
    (now : ℕ) (key other : List ℕ) (seconds : ℕ) (reason : List ℕ) (st : State)
    → paused_until other (set_cooldown now key seconds reason st) ≡ (
        if same_text key other
        then max (paused_until other st) (now + min seconds max_cooldown_seconds * second)
        else paused_until other st)
unfolding set_cooldown
set_cooldown_extends now key other seconds reason st =
    let until = now + min seconds max_cooldown_seconds * second in
    let f = cooled until (take 200 reason) in
    let found = find_channel-upsert key other f st.channels in
    elim (Bool-cases (same_text key other)) [
      | inl e ↦
          let same = same_text-eq key other e in
          let known = find_channel other st.channels in
          ap pause_of found ∙ rw (e, same) (pause_of-cooled known until (take 200 reason))
      | inr e ↦ ap pause_of found ∙ rw e refl
    ]

wait_spaced :
    (began now : ℕ) (key : List ℕ) (policy : ChannelPolicy) (wait : ℕ) (o : Option ChannelState)
    → policy_of_key key ≡ some policy
    → wait_of now key (some (attempted began o)) ≡ some wait
    → began + policy.min_interval_ms * 1000 ≤ now + wait
unfolding wait_of spacing_left is_cooling attempted
wait_spaced began now key policy wait none known waits =
    let w : some (began + policy.min_interval_ms * 1000 - now) ≡ some wait =
      rw (spacing_left, known) at waits in
    ground (arith, w)
wait_spaced began now key policy wait (some c) known waits =
    elim (Bool-cases (is_cooling now (attempted began (some c)))) [
      | inl e ↦ let w : none ≡ some wait = rw (wait_of, e) at waits in absurd (ground arith)
      | inr e ↦
          let w : some (began + policy.min_interval_ms * 1000 - now) ≡ some wait =
            rw (wait_of, e, spacing_left, known) at waits in
          ground (arith, w)
    ]

-- After an attempt at `began`, the wait that `pacing_wait_seconds` gives at a later time ends no
-- earlier than the policy's interval after it: two attempts on a send path keep their distance.
pub attempts_spaced :
    (began now : ℕ) (key : List ℕ) (policy : ChannelPolicy) (wait : ℕ) (st : State)
    → policy_of_key key ≡ some policy
    → pacing_wait now key (record_attempt began key st) ≡ some wait
    → began + policy.min_interval_ms * 1000 ≤ now + wait
unfolding pacing_wait record_attempt wait_of
attempts_spaced began now key policy wait st known waits =
    let found = find_channel-upsert key key (attempted began) st.channels in
    let self = same_text_refl key in
    let kept : find_channel key (upsert key (attempted began) st.channels)
        ≡ some (attempted began (find_channel key st.channels)) =
      found ∙ rw self refl in
    wait_spaced began now key policy wait (find_channel key st.channels) known
      (sym (ap (wait_of now key) kept) ∙ waits)
