-- ===== src/SignalSlotApi.antt =====
-- signal-slot/signal_slot_api.hpp: the macros. An argument of a macro is a piece of the program's
-- text, of any type; `direct` and `null_queue` are the texts of the two defaults.
use modern_signal_slot.Base.{
  ℕ, ◌≤◌, ◌<◌, ◌≡◌, refl, List, [], ◌∷◌, ◌++◌, Option, none, ◌==◌, if◌then◌else◌, Bool, false, some,
  arith, length, get_elem?,
}
use modern_signal_slot.Slot.{Body, direct_connection}
use modern_signal_slot.Slot.Pointers.{Callable, Object}
use modern_signal_slot.Call.{Emission, emit}
use modern_signal_slot.Connect.{disconnect_both}
use modern_signal_slot.World.{World}
use modern_signal_slot.Connect.Select.{
  Arg, callee, member, object, observer, shared_object, weak_object, type_arg, queue_arg, gid_arg,
  is_callable, connect_args, options_of, select, viable, call_overload,
}

-- What stands in a list of macro arguments: one of the program, or a number that `COUNT_ARGS` adds.
pub data Token (X : Type 0) : Type 0 where
  written : X → Token X
  number : ℕ → Token X

module _ {X : Type 0} where
  abbrev pub all_written : List X → List (Token X)
  all_written [] = []
  all_written (x ∷ xs) = written x ∷ all_written xs

  -- `COUNT_ARGS_HELPER` gives its seventh argument.
  abbrev pub count_args_helper : List (Token X) → Option (Token X)
  count_args_helper tokens = get_elem? tokens 6

  pub count_args : List X → Option (Token X)
  count_args xs =
      count_args_helper
        (all_written xs ++ (number 6 ∷ number 5 ∷ number 4 ∷ number 3 ∷ number 2 ∷ number 1 ∷ []))

-- A `connect` that the text calls: of the signal of a sender, with arguments.
pub record ConnectCall (X : Type 0) : Type 0 where
  pub sender : X
  pub signal : X
  pub args : List X

module _ {X : Type 0} (direct null_queue : X) where
  abbrev pub connect_impl3 : List X → Option (ConnectCall X)
  connect_impl3 (s ∷ g ∷ slot ∷ []) =
      some (record { sender = s; signal = g; args = slot ∷ direct ∷ null_queue ∷ [] })
  connect_impl3 _ = none

  abbrev pub connect_impl4 : List X → Option (ConnectCall X)
  connect_impl4 (s ∷ g ∷ receiver ∷ slot ∷ []) =
      some (record { sender = s; signal = g; args = receiver ∷ slot ∷ direct ∷ null_queue ∷ [] })
  connect_impl4 _ = none

  abbrev pub connect_impl5 : List X → Option (ConnectCall X)
  connect_impl5 (s ∷ g ∷ slot ∷ type ∷ queue ∷ []) =
      some (record { sender = s; signal = g; args = slot ∷ type ∷ queue ∷ [] })
  connect_impl5 _ = none

  abbrev pub connect_impl6 : List X → Option (ConnectCall X)
  connect_impl6 (s ∷ g ∷ receiver ∷ slot ∷ type ∷ queue ∷ []) =
      some (record { sender = s; signal = g; args = receiver ∷ slot ∷ type ∷ queue ∷ [] })
  connect_impl6 _ = none

  -- `CONNECT_CHOOSER`: the macro of the number's name, if there is one.
  abbrev pub connect_chooser : Option (Token X) → List X → Option (ConnectCall X)
  connect_chooser (some (number n)) xs =
      if n == 3
      then connect_impl3 xs
      else if n == 4
      then connect_impl4 xs
      else if n == 5
      then connect_impl5 xs
      else if n == 6
      then connect_impl6 xs
      else none
  connect_chooser _ xs = none

  -- `CONNECT`
  pub connect_macro : List X → Option (ConnectCall X)
  unfolding count_args
  connect_macro xs = connect_chooser (count_args xs) xs

-- What an argument of `CONNECT` may be: the text of a sender, the name of one of its signals, or an
-- argument of `connect`.
pub data Text (S G : Type 0) : Type 0 where
  sender_text : S → Text S G
  signal_text : G → Text S G
  arg_text : Arg → Text S G

module _ {S G : Type 0} where
  abbrev pub arg_texts : List Arg → List (Text S G)
  arg_texts [] = []
  arg_texts (x ∷ xs) = arg_text x ∷ arg_texts xs

  abbrev pub all_args : List (Text S G) → Option (List Arg)
  all_args [] = some []
  all_args (arg_text x ∷ ts) = elim (all_args ts) [ none ↦ none | some xs ↦ some (x ∷ xs) ]
  all_args (sender_text s ∷ ts) = none
  all_args (signal_text g ∷ ts) = none

-- `signal_of` gives the signal that `(sender)->signal` is.
module _ {A U S G : Type 0} (signal_of : S → G → ℕ) where
  -- `(sender)->signal.connect(...)`, resolved by the compiler. `none` does not compile.
  abbrev pub connect_call : World A U → ConnectCall (Text S G) → Option (World A U × Option ℕ)
  connect_call w call = connect_on w call.sender call.signal (all_args call.args)
    where
      connect_on :
          World A U → Text S G → Text S G → Option (List Arg) → Option (World A U × Option ℕ)
      connect_on w (sender_text s) (signal_text g) (some xs) = connect_args w (signal_of s g) xs
      connect_on w _ _ _ = none

  -- `CONNECT`
  pub connect_text : World A U → List (Text S G) → Option (World A U × Option ℕ)
  unfolding connect_macro
  connect_text w ts =
      elim (connect_macro (arg_text (type_arg direct_connection)) (arg_text (queue_arg none)) ts) [
        | none ↦ none
        | some call ↦ connect_call w call
      ]

  -- `DISCONNECT`, whose arguments stand in the text as they are.
  abbrev pub disconnect_text : World A U → S → G → Object → Callable → World A U × ℕ
  disconnect_text w s g receiver slot = disconnect_both w (signal_of s g) receiver slot

-- `EMIT`, which calls the signal.

abbrev pub emit_text :
    {A U : Type 0} → Bool → (Body → A → World A U → World A U) → World A U → ℕ → A → Emission A U
emit_text assertions user_code w k args = emit assertions user_code w k args

-- `COUNT_ARGS` gives the number of its arguments, for one to six of them.
pub count_args-length :
    {X : Type 0} (xs : List X)
    → 0 < length xs
    → length xs ≤ 6
    → count_args xs ≡ some (number (length xs))
unfolding count_args
count_args-length [] some_arg few = absurd (omega arith)
count_args-length (a ∷ []) some_arg few = refl
count_args-length (a ∷ b ∷ []) some_arg few = refl
count_args-length (a ∷ b ∷ c ∷ []) some_arg few = refl
count_args-length (a ∷ b ∷ c ∷ d ∷ []) some_arg few = refl
count_args-length (a ∷ b ∷ c ∷ d ∷ e ∷ []) some_arg few = refl
count_args-length (a ∷ b ∷ c ∷ d ∷ e ∷ f ∷ []) some_arg few = refl
count_args-length (a ∷ b ∷ c ∷ d ∷ e ∷ f ∷ g ∷ rest) some_arg few = absurd (omega arith)

-- Two arguments, of which the first can be called alone: a lambda and its connection type.
abbrev pub is_typed_lambda : List Arg → Bool
is_typed_lambda (x ∷ y ∷ []) = is_callable x
is_typed_lambda _ = false

module _ {A U S G : Type 0} (signal_of : S → G → ℕ) (w : World A U) (s : S) (g : G) where
  -- The text `CONNECT(s, g, ...)`, with the arguments behind.
  abbrev pub connect_with : List Arg → Option (World A U × Option ℕ)
  connect_with xs = connect_text signal_of w (sender_text s ∷ signal_text g ∷ arg_texts xs)

  one_argument : (f : Arg) → connect_with (f ∷ []) ≡ connect_args w (signal_of s g) (f ∷ [])
  unfolding connect_text count_args connect_args options_of select viable call_overload
  one_argument (callee c) = refl
  one_argument (member c) = refl
  one_argument (object o) = refl
  one_argument (observer o) = refl
  one_argument (shared_object o) = refl
  one_argument (weak_object o) = refl
  one_argument (type_arg t) = refl
  one_argument (queue_arg q) = refl
  one_argument (gid_arg z) = refl

  two_arguments :
      (x y : Arg)
      → is_callable x ≡ false
      → connect_with (x ∷ y ∷ []) ≡ connect_args w (signal_of s g) (x ∷ y ∷ [])
  unfolding connect_text count_args connect_args options_of
  two_arguments (callee c) y e = cc
  two_arguments (member c) y e = refl
  two_arguments (object o) y e = refl
  two_arguments (observer o) y e = refl
  two_arguments (shared_object o) y e = refl
  two_arguments (weak_object o) y e = refl
  two_arguments (type_arg t) y e = refl
  two_arguments (queue_arg q) y e = refl
  two_arguments (gid_arg z) y e = refl

  -- `CONNECT(sender, signal, ...)` with one to four arguments behind the signal is a connect to the
  -- signal `sender->signal` with the same arguments, for every kind of slot and object, also with a
  -- receiver and a type but no queue; the exception are two arguments that begin with a callable.
  pub connect_text-connect_args :
      (xs : List Arg)
      → 0 < length xs
      → length xs ≤ 4
      → is_typed_lambda xs ≡ false
      → connect_with xs ≡ connect_args w (signal_of s g) xs
  unfolding connect_text count_args
  connect_text-connect_args [] some_arg few plain = absurd (omega arith)
  connect_text-connect_args (a ∷ []) some_arg few plain = one_argument a
  connect_text-connect_args (a ∷ b ∷ []) some_arg few plain = two_arguments a b plain
  connect_text-connect_args (a ∷ b ∷ c ∷ []) some_arg few plain = refl
  connect_text-connect_args (a ∷ b ∷ c ∷ d ∷ []) some_arg few plain = refl
  connect_text-connect_args (a ∷ b ∷ c ∷ d ∷ e ∷ rest) some_arg few plain = absurd (omega arith)
