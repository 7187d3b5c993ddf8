-- ===== src/Start/Context.antt =====
-- internal/global/context.go: the contexts of Go that the program makes, and the wrapper that carries the
-- configuration and the instances. `Instances` is a pointer: its address stands for what is shared.
pub mod Derived
mod Tests
use waterhose.Prelude.{
  ℕ, ◌+◌, min, Bool, true, false, ◌||◌, leb, Option, none, some, List, [], ◌∷◌, Bytes, bytes_eq,
  if◌then◌else◌,
}
use waterhose.Start.{Config}

-- `context.Context`: the background, the derived contexts of the library, and the program's own. A cancel
-- function has a number; a deadline is a time.
pub data GoContext : Type 0 where
  background : GoContext
  cancel_context : ℕ → GoContext → GoContext
  deadline_context : ℕ → ℕ → GoContext → GoContext
  value_context : Bytes → Bytes → GoContext → GoContext
  global_context : Config → ℕ → GoContext → GoContext

-- `gCtx`
pub record Context : Type 0 where
  pub ctx : GoContext
  pub config : Config
  pub inst : ℕ

-- Which cancel functions were called, and the time.
pub record World : Type 0 where
  pub called : ℕ → Bool
  pub now : ℕ

-- Whether the channel of `Done` is closed; the program's own context asks the one that it has.
unfoldable pub is_done : World → GoContext → Bool
is_done w background = false
is_done w (cancel_context n c) = w.called n || is_done w c
is_done w (deadline_context n time c) = w.called n || leb time w.now || is_done w c
is_done w (value_context key value c) = is_done w c
is_done w (global_context config inst c) = is_done w c

-- The earlier of a deadline and one that there may be.
abbrev pub earlier : ℕ → Option ℕ → Option ℕ
earlier time none = some time
earlier time (some other) = some (min time other)

-- `Deadline`
unfoldable pub deadline : GoContext → Option ℕ
deadline background = none
deadline (cancel_context n c) = deadline c
deadline (deadline_context n time c) = earlier time (deadline c)
deadline (value_context key value c) = deadline c
deadline (global_context config inst c) = deadline c

-- `Value`
unfoldable pub value : Bytes → GoContext → Option Bytes
value k background = none
value k (cancel_context n c) = value k c
value k (deadline_context n time c) = value k c
value k (value_context key v c) = let rest = value k c in if bytes_eq key k then some v else rest
value k (global_context config inst c) = value k c

-- A `Context` as a `context.Context`.
abbrev pub as_context : Context → GoContext
as_context g = global_context g.config g.inst g.ctx

-- `New`, with the address of the new instances.
abbrev pub new_context : ℕ → GoContext → Config → Context
new_context inst c config = record { ctx = c; config = config; inst = inst }

-- `WithCancel`, with the number of the cancel function.
abbrev pub with_cancel : ℕ → Context → Context
with_cancel n g = record { ctx = cancel_context n (as_context g); config = g.config; inst = g.inst }

-- `WithDeadline`
abbrev pub with_deadline : ℕ → ℕ → Context → Context
with_deadline n time g = record {
  ctx = deadline_context n time (as_context g);
  config = g.config;
  inst = g.inst;
}

-- `WithValue`
abbrev pub with_value : Bytes → Bytes → Context → Context
with_value key v g = record {
  ctx = value_context key v (as_context g);
  config = g.config;
  inst = g.inst;
}

-- `WithTimeout`, at the time `now`.
abbrev pub with_timeout : ℕ → ℕ → ℕ → Context → Context
with_timeout n now timeout g = record {
  ctx = deadline_context n (now + timeout) (as_context g);
  config = g.config;
  inst = g.inst;
}
