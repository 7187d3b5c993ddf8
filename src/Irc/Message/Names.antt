-- ===== src/Irc/Message/Names.antt =====
-- internal/modes/slave/irc/irc.go: `ToMessageType` against the constants.
use waterhose.Prelude.{
  List, [], ◌∷◌, ◌≡◌, ◌≢◌, ◌↔◌, refl, arith, Bytes, bytes_eq, bytes_eq_iff, sym, ap, ◌∙◌,
}
use waterhose.Irc.Message.{
  MessageType, privmsg, unknown, type_name, known_types, first_case, to_message_type,
}

first_case_sound :
    (ts : List MessageType) (s : Bytes) {t : MessageType}
    → first_case ts s ≡ t
    → t ≢ unknown
    → s ≡ type_name t
unfolding first_case
first_case_sound [] s e ne = absurd (ne (sym e))
first_case_sound (x ∷ ts) s {t} e ne =
    ground (arith, bytes_eq_iff s (type_name x), first_case_sound ts s {t = t})

pub to_message_type-type_name : (t : MessageType) → to_message_type (type_name t) ≡ t
unfolding to_message_type type_name bytes_eq
to_message_type-type_name privmsg = refl
to_message_type-type_name _ = refl

-- `ToMessageType` gives a type other than `MessageTypeUnknown` exactly for the string of that
-- type's constant.
pub to_message_type_iff :
    (s : Bytes) (t : MessageType) → t ≢ unknown → (to_message_type s ≡ t) ↔ (s ≡ type_name t)
unfolding to_message_type
to_message_type_iff s t ne = (
  λ e. first_case_sound known_types s e ne,
  λ e. ap to_message_type e ∙ to_message_type-type_name t,
)
