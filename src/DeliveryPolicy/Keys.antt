-- ===== src/DeliveryPolicy/Keys.antt =====
-- The state keys of the send paths (app/services/notifications/delivery_policy.py).
use justup.Prelude.{ℕ, ◌≡◌, refl, List}
use justup.DeliveryPolicy.{Channel, email, signal, channel_text, channel_key, channel_of_key}
use justup.Text.{before}

-- The channel is read back from a key, whatever the sender's account is called.
pub channel_of_key-channel_key :
    (c : Channel) (sender : List ℕ) → channel_of_key (channel_key c sender) ≡ channel_text c
unfolding channel_of_key channel_key before
channel_of_key-channel_key email sender = refl
channel_of_key-channel_key signal sender = refl
