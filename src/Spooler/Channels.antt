-- ===== src/Spooler/Channels.antt =====
-- The state of the send paths: pacing and provider cooldown
-- (app/services/notifications/spooler.py, the table notification_channel_state).
use justup.Prelude.{
  ℕ, ◌+◌, ◌-◌, ◌*◌, Bool, true, false, Option, none, some, List, [], ◌∷◌, ltb, min, take,
  if◌then◌else◌,
}
use justup.Text.{same_text}
use justup.DeliveryPolicy.{
  email, signal, channel_text, channel_of_key, channel_policy, ChannelPolicy, max_cooldown_seconds,
  max_pacing_wait_seconds,
}
use justup.Spooler.Inbox.{second, ChannelState, State}

-- SELECT ... WHERE channel_key = ?
unfoldable pub find_channel : List ℕ → List (List ℕ × ChannelState) → Option ChannelState
unfolding same_text
find_channel key [] = none
find_channel key ((k, c) ∷ channels) = if same_text k key then some c else find_channel key channels

-- INSERT ... ON CONFLICT(channel_key) DO UPDATE, with the row for either case.
unfoldable pub upsert :
    List ℕ
    → (Option ChannelState → ChannelState)
    → List (List ℕ × ChannelState)
    → List (List ℕ × ChannelState)
unfolding same_text
upsert key f [] = (key, f none) ∷ []
upsert key f ((k, c) ∷ channels) =
    if same_text k key then (k, f (some c)) ∷ channels else (k, c) ∷ upsert key f channels

-- CHANNEL_POLICIES.get(channel_of_key(key))
unfoldable pub policy_of_key : List ℕ → Option ChannelPolicy
unfolding channel_of_key channel_text same_text channel_policy
policy_of_key key =
    if same_text (channel_of_key key) (channel_text email)
    then some (channel_policy email)
    else if same_text (channel_of_key key) (channel_text signal)
    then some (channel_policy signal)
    else none

-- The stored cooldown has not passed.
unfoldable pub is_cooling : ℕ → ChannelState → Bool
is_cooling now c = elim c.cooldown_until [ none ↦ false | some until ↦ ltb now until ]

-- `ready_at - now`, and 0 without a policy or an attempt.
unfoldable pub spacing_left : ℕ → List ℕ → ChannelState → ℕ
unfolding policy_of_key
spacing_left now key c = elim (policy_of_key key) [
  | none ↦ 0
  | some policy ↦ elim c.last_attempt_at [
    | none ↦ 0
    | some attempt ↦ attempt + policy.min_interval_ms * 1000 - now
  ]
]

-- Whether `_blocked_keys` has a row's key.
unfoldable pub is_blocked_row : ℕ → List ℕ → ChannelState → Bool
unfolding is_cooling spacing_left
is_blocked_row now key c =
    if is_cooling now c
    then true
    else ltb (max_pacing_wait_seconds * second) (spacing_left now key c)

-- `_blocked_keys`
unfoldable pub blocked_keys : ℕ → List (List ℕ × ChannelState) → List (List ℕ)
unfolding is_blocked_row
blocked_keys now [] = []
blocked_keys now ((key, c) ∷ channels) =
    let rest = blocked_keys now channels in if is_blocked_row now key c then key ∷ rest else rest

unfoldable pub wait_of : ℕ → List ℕ → Option ChannelState → Option ℕ
unfolding is_cooling spacing_left
wait_of now key none = some 0
wait_of now key (some c) = if is_cooling now c then none else some (spacing_left now key c)

-- `pacing_wait_seconds`, in microseconds; `none` stands for Python's `None`.
unfoldable pub pacing_wait : ℕ → List ℕ → State → Option ℕ
unfolding find_channel wait_of
pacing_wait now key st = wait_of now key (find_channel key st.channels)

unfoldable pub attempted : ℕ → Option ChannelState → ChannelState
attempted now none = record {
  last_attempt_at = some now;
  cooldown_until = none;
  cooldown_reason = none;
}
attempted now (some c) = record c { last_attempt_at = some now }

unfoldable pub record_attempt : ℕ → List ℕ → State → State
unfolding upsert attempted
record_attempt now key st = record st { channels = upsert key (attempted now) st.channels }

-- cooldown_until IS NULL OR cooldown_until < excluded.cooldown_until
abbrev is_earlier : Option ℕ → ℕ → Bool
is_earlier none until = true
is_earlier (some old) until = ltb old until

unfoldable pub cooled : ℕ → List ℕ → Option ChannelState → ChannelState
cooled until reason none = record {
  last_attempt_at = none;
  cooldown_until = some until;
  cooldown_reason = some reason;
}
cooled until reason (some c) =
    if is_earlier c.cooldown_until until
    then record c { cooldown_until = some until; cooldown_reason = some reason }
    else c

unfoldable pub set_cooldown : ℕ → List ℕ → ℕ → List ℕ → State → State
unfolding upsert cooled
set_cooldown now key seconds reason st = record st {
  channels =
      upsert key (cooled (now + min seconds max_cooldown_seconds * second) (take 200 reason))
        st.channels;
}
