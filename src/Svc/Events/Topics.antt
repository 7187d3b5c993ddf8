-- ===== src/Svc/Events/Topics.antt =====
-- internal/svc/events/events.go: topics do not collide.
use waterhose.Prelude.{
  [], ◌∷◌, ◌++◌, ◌≡◌, ◌≢◌, ◌↔◌, ap, sym, ◌∙◌, drop, length, drop-append, Bytes, codes, arith, ℕ,
}
use waterhose.Prelude.Int.{ℤ}
use waterhose.Strconv.{itoa}
use waterhose.Strconv.RoundTrip.{itoa_injective, IsInt}
use waterhose.Svc.Events.{slave_channel_update_format, twitch_chat_login_format}

first_byte : Bytes → ℕ
first_byte [] = 0
first_byte (c ∷ _) = c

append_cancel : (p s t : Bytes) → p ++ s ≡ p ++ t → s ≡ t
append_cancel p s t e = sym (drop-append p s) ∙ ap (drop (length p)) e ∙ drop-append p t

-- The topics of slaves are told apart by the slave, those of logins by the account, and no topic is
-- both.
pub topics_lem :
    (i j : ℤ) (a b : Bytes)
    → IsInt i
    → IsInt j
    → (slave_channel_update_format i ≡ slave_channel_update_format j ↔ i ≡ j)
      × (twitch_chat_login_format a ≡ twitch_chat_login_format b ↔ a ≡ b)
      × (slave_channel_update_format i ≢ twitch_chat_login_format a)
unfolding slave_channel_update_format twitch_chat_login_format first_byte
topics_lem i j a b h k = (
  (
    λ e. itoa_injective i j h k (append_cancel (codes "slave-channel-update:") (itoa i) (itoa j) e),
    λ e. ap slave_channel_update_format e,
  ),
  (λ e. append_cancel (codes "twitch-chat-login:") a b e, λ e. ap twitch_chat_login_format e),
  λ e. ground (arith, ap first_byte e),
)
