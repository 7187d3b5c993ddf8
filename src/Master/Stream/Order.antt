-- ===== src/Master/Stream/Order.antt =====
-- internal/modes/master/server/server.go: what `RegisterSlave` has sent at any time.
use mathlib.Core.List.{append-nil, append_assoc, map-append}
use mathlib.Core.Path.{subst}
use waterhose.Prelude.{
  ℕ, ◌+◌, ◌-◌, ◌≤◌, Bool, true, false, not, List, [], ◌∷◌, ◌++◌, map, ◌≡◌, refl, sym, ap, ◌∙◌,
  Bytes, arith, leb, length, length-append, ◌⊎◌, inr, if◌then◌else◌,
}
use waterhose.Structures.{
  Channel, PbChannel, User, Payload, join_payload, part_payload, login_payload,
}
use waterhose.Svc.Twitch.Login.{Credentials}
use waterhose.Master.Stream.{
  Stream, Label, quiet, published, fetched, buffer, pb_channel, account_channel, login_message,
  handle_login, handle_joins, Step, login_comes, channels_come, channels_fetched, takes_login,
  takes_channels, Run, starts, goes_on,
}

-- The lists of channels that came to `joinEventCh`.
unfoldable pub inputs : List Label → List (List Channel)
inputs [] = []
inputs (quiet ∷ labels) = inputs labels
inputs (published channels ∷ labels) = channels ∷ inputs labels
inputs (fetched channels ∷ labels) = channels ∷ inputs labels

-- How often the channels of the slave were asked for and came.
unfoldable pub fetches : List Label → ℕ
fetches [] = 0
fetches (fetched _ ∷ labels) = 1 + fetches labels
fetches (_ ∷ labels) = fetches labels

-- The lists of channels that were sent.
unfoldable pub sent_joins : List Payload → List (List PbChannel)
sent_joins [] = []
sent_joins (join_payload channels ∷ payloads) = channels ∷ sent_joins payloads
sent_joins (_ ∷ payloads) = sent_joins payloads

-- How many logins were sent.
unfoldable pub sent_logins : List Payload → ℕ
sent_logins [] = 0
sent_logins (login_payload _ _ ∷ payloads) = 1 + sent_logins payloads
sent_logins (_ ∷ payloads) = sent_logins payloads

abbrev pub one_if : Bool → ℕ
one_if true = 1
one_if false = 0

module _ (account_id : Bytes) (empty_channel : ℕ → ℕ) (is_user : User → Type 0)
    (is_own : List Channel → Type 0) where
  -- Every message is a join, or a login of the account under the name of a user.
  unfoldable pub Messages : List Payload → Type 0
  Messages [] = Unit
  Messages (join_payload channels ∷ payloads) = Messages payloads
  Messages (part_payload channels ∷ payloads) = ⊥
  Messages (login_payload channel oauth ∷ payloads) =
      ((u : User) × is_user u × (channel ≡ account_channel account_id u.login)) × Messages payloads

  inr_eq : {A B : Type 0} {x y : B} → ◌≡◌ {A = A ⊎ B} (inr x) (inr y) → x ≡ y
  inr_eq e = cc

  -- The lists that came were sent in their order, but for those that are waiting; the channels of the
  -- slave were asked for once if a login was sent, and not before.
  pub record Sends (labels : List Label) (s : Stream) : Type 0 where
    pub taken : List (List Channel)
    pub in_order : taken ++ s.join_events ≡ inputs labels
    pub as_sent : sent_joins s.sent ≡ map (map pb_channel) taken
    pub once : fetches labels + one_if s.fetching ≡ one_if s.first
    pub first_login : s.first ≡ leb 1 (sent_logins s.sent)
    pub room : length s.join_events ≤ buffer
    pub messages : Messages s.sent

  inputs-append : (xs ys : List Label) → inputs (xs ++ ys) ≡ inputs xs ++ inputs ys
  unfolding inputs
  inputs-append [] ys = refl
  inputs-append (quiet ∷ xs) ys = inputs-append xs ys
  inputs-append (published cs ∷ xs) ys = ap (λ r. cs ∷ r) (inputs-append xs ys)
  inputs-append (fetched cs ∷ xs) ys = ap (λ r. cs ∷ r) (inputs-append xs ys)

  fetches-append : (xs ys : List Label) → fetches (xs ++ ys) ≡ fetches xs + fetches ys
  unfolding fetches
  fetches-append [] ys = omega arith
  fetches-append (quiet ∷ xs) ys = fetches-append xs ys
  fetches-append (published cs ∷ xs) ys = fetches-append xs ys
  fetches-append (fetched cs ∷ xs) ys = omega (arith, fetches-append xs ys)

  sent_joins-append :
      (xs ys : List Payload) → sent_joins (xs ++ ys) ≡ sent_joins xs ++ sent_joins ys
  unfolding sent_joins
  sent_joins-append [] ys = refl
  sent_joins-append (join_payload cs ∷ xs) ys = ap (λ r. cs ∷ r) (sent_joins-append xs ys)
  sent_joins-append (part_payload cs ∷ xs) ys = sent_joins-append xs ys
  sent_joins-append (login_payload c o ∷ xs) ys = sent_joins-append xs ys

  sent_logins-append :
      (xs ys : List Payload) → sent_logins (xs ++ ys) ≡ sent_logins xs + sent_logins ys
  unfolding sent_logins
  sent_logins-append [] ys = omega arith
  sent_logins-append (join_payload cs ∷ xs) ys = sent_logins-append xs ys
  sent_logins-append (part_payload cs ∷ xs) ys = sent_logins-append xs ys
  sent_logins-append (login_payload c o ∷ xs) ys = omega (arith, sent_logins-append xs ys)

  Messages-append : (xs ys : List Payload) → Messages xs → Messages ys → Messages (xs ++ ys)
  unfolding Messages
  Messages-append [] ys h k = k
  Messages-append (join_payload cs ∷ xs) ys h k = Messages-append xs ys h k
  Messages-append (part_payload cs ∷ xs) ys h k = elim h [ ]
  Messages-append (login_payload c o ∷ xs) ys (u, h) k = (u, Messages-append xs ys h k)

  comes :
      (labels : List Label) (taken waiting : List (List Channel)) (label : Label)
      (channels : List Channel)
      → inputs (label ∷ []) ≡ channels ∷ []
      → taken ++ waiting ≡ inputs labels
      → taken ++ (waiting ++ channels ∷ []) ≡ inputs (labels ++ label ∷ [])
  comes labels taken waiting label channels h e =
      sym (append_assoc taken waiting (channels ∷ []))
      ∙ rw (inputs-append labels (label ∷ []), h, e) refl

  stays :
      (labels : List Label) (waiting : List (List Channel))
      → waiting ≡ inputs labels
      → waiting ≡ inputs (labels ++ quiet ∷ [])
  unfolding inputs
  stays labels waiting e = e ∙ sym (inputs-append labels (quiet ∷ []) ∙ append-nil (inputs labels))

  login-Sends :
      (labels : List Label) (s : Stream) (auth : Credentials) (user : User)
      → is_user user
      → Sends labels s
      → Sends (labels ++ quiet ∷ []) (record {
        login_events = empty_channel (s.login_events - 1);
        join_events = s.join_events;
        first = true;
        fetching = if not s.first then true else s.fetching;
        sent = s.sent ++ login_message account_id empty_channel auth user ∷ [];
      })
  unfolding fetches sent_joins sent_logins Messages
  login-Sends labels s auth user u v = record {
    taken = v.taken;
    in_order = stays labels _ v.in_order;
    as_sent = sent_joins-append s.sent _ ∙ append-nil _ ∙ v.as_sent;
    once = ground (arith, fetches-append labels (quiet ∷ []), v.once);
    first_login =
        ground (
          arith,
          sent_logins-append s.sent (login_message account_id empty_channel auth user ∷ []),
        );
    room = v.room;
    messages = Messages-append s.sent _ v.messages ((user, u, refl), tt);
  }

  channels-Sends :
      (labels : List Label) (s : Stream) (channels : List Channel) (later : List (List Channel))
      → s.join_events ≡ channels ∷ later
      → Sends labels s
      → Sends (labels ++ quiet ∷ []) (record s {
        join_events = later;
        sent = s.sent ++ join_payload (map pb_channel channels) ∷ [];
      })
  unfolding fetches sent_joins sent_logins Messages
  channels-Sends labels s channels later e v = record {
    taken = v.taken ++ channels ∷ [];
    in_order =
        stays labels _ (
          append_assoc v.taken (channels ∷ []) later ∙ ap (λ r. v.taken ++ r) (sym e) ∙ v.in_order);
    as_sent =
        sent_joins-append s.sent _
        ∙ ap (λ r. r ++ map pb_channel channels ∷ []) v.as_sent
        ∙ sym (map-append (map pb_channel) v.taken (channels ∷ []));
    once = omega (arith, fetches-append labels (quiet ∷ []), v.once);
    first_login = ground (
      arith,
      sent_logins-append s.sent (join_payload (map pb_channel channels) ∷ []),
      v.first_login,
    );
    room = ground (arith, v.room);
    messages = Messages-append s.sent _ v.messages tt;
  }

  step-Sends :
      (labels : List Label) (s : Stream) (label : Label) (s' : Stream)
      → Step account_id empty_channel is_user is_own s label s'
      → Sends labels s
      → Sends (labels ++ label ∷ []) s'
  unfolding inputs fetches handle_login handle_joins
  step-Sends labels _ _ _ (login_comes s full) v = record {
    taken = v.taken;
    in_order = stays labels _ v.in_order;
    as_sent = v.as_sent;
    once = omega (arith, fetches-append labels (quiet ∷ []), v.once);
    first_login = v.first_login;
    room = v.room;
    messages = v.messages;
  }
  step-Sends labels _ _ _ (channels_come s channels full) v = record {
    taken = v.taken;
    in_order = comes labels v.taken s.join_events (published channels) channels refl v.in_order;
    as_sent = v.as_sent;
    once = omega (arith, fetches-append labels (published channels ∷ []), v.once);
    first_login = v.first_login;
    room = omega (arith, length-append s.join_events (channels ∷ []), full);
    messages = v.messages;
  }
  step-Sends labels _ _ _ (channels_fetched s channels on own full) v = record {
    taken = v.taken;
    in_order = comes labels v.taken s.join_events (fetched channels) channels refl v.in_order;
    as_sent = v.as_sent;
    once = ground (arith, fetches-append labels (fetched channels ∷ []), v.once);
    first_login = v.first_login;
    room = omega (arith, length-append s.join_events (channels ∷ []), full);
    messages = v.messages;
  }
  step-Sends labels _ _ _ (takes_login s s' auth user false h u e) v = absurd (cc)
  step-Sends labels _ _ _ (takes_login s s' auth user true h u e) v =
      subst (Sends (labels ++ quiet ∷ [])) (inr_eq e) (login-Sends labels s auth user u v)
  step-Sends labels _ _ _ (takes_channels s s' channels later false h e) v = absurd (cc)
  step-Sends labels _ _ _ (takes_channels s s' channels later true h e) v =
      subst (Sends (labels ++ quiet ∷ [])) (inr_eq e) (channels-Sends labels s channels later h v)

  -- A stream has, at any time, sent the lists of channels that were published for the slave or were
  -- fetched for it, in the order in which they came, but for those that wait, of which there are at
  -- most fifty; each channel was sent with its id, login, priority and flags. The channels of the slave
  -- are fetched at most once, and only if a login was sent. Every message is such a list or a login of
  -- the account, under the name that the user service gave.
  pub Run-Sends :
      (labels : List Label) (s : Stream)
      → Run account_id empty_channel is_user is_own labels s
      → Sends labels s
  unfolding inputs fetches sent_joins sent_logins Messages
  Run-Sends _ _ starts = record {
    taken = [];
    in_order = refl;
    as_sent = refl;
    once = refl;
    first_login = refl;
    room = omega arith;
    messages = tt;
  }
  Run-Sends _ _ (goes_on labels s label s' run step) =
      step-Sends labels s label s' step (Run-Sends labels s run)
