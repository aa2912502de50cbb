-- ===== src/Input/Typing.antt =====
-- Sequences of keystrokes through `input_inject_byte` of drivers/input/input.c: the bytes that a
-- terminal sends for them, one call after the other.
use kolibriarm.Base.{
  ℕ, zero, suc, ◌+◌, ◌-◌, ◌<◌, ◌≤◌, ◌≡◌, ◌≢◌, ◌⊎◌, refl, sym, ap, ◌∙◌, subst, subst₂, true, false,
  ◌&&◌, List, [], ◌∷◌, ◌++◌, Option, none, some, leb, ltb, ◌==◌, get_or, length, length-append,
  arith, if◌then◌else◌, inl, inr, Bool-cases, u8,
}
use kolibriarm.Input.{
  Input, EscState, idle, got_esc, got_bracket, got_bracket_digit, queue_size, inject_byte,
}
use kolibriarm.Input.Ring.{nth, IsValid}
use kolibriarm.Input.Escape.{
  key_event, arrow, page, key_of, next_state, next_discard, Moved, Queued, inject_byte_lem,
}

-- A character, one after Escape, a key that sends a sequence, or a sequence of no key: ESC, [ and a
-- byte, or ESC, [, a digit and a byte.
pub data Stroke : Type 0 where
  char escaped : ℕ → Stroke
  up down left right page_up page_down : Stroke
  unknown : ℕ → Stroke
  broken : ℕ → ℕ → Stroke

-- A character does not open a sequence, nor go on with one after Escape; and a sequence of no key is
-- none of the other sequences, nor the beginning of one.
abbrev pub IsPlain : Stroke → Type 0
IsPlain (char c) = c ≢ 0x1b
IsPlain (escaped c) = (c ≢ 0x1b) × (c ≢ 91)
IsPlain up = Unit
IsPlain down = Unit
IsPlain left = Unit
IsPlain right = Unit
IsPlain page_up = Unit
IsPlain page_down = Unit
IsPlain (unknown c) = (c < 256) × ((c < 48) ⊎ (57 < c)) × ((c < 65) ⊎ (68 < c))
IsPlain (broken digit c) = (48 ≤ digit) × (digit ≤ 57) × ((c ≢ 126) ⊎ ((digit ≢ 53) × (digit ≢ 54)))

-- The bytes that a terminal sends, and the keys that the queue is to get.
abbrev pub bytes : Stroke → List ℕ
bytes (char c) = c ∷ []
bytes (escaped c) = 0x1b ∷ c ∷ []
bytes up = 0x1b ∷ 91 ∷ 65 ∷ []
bytes down = 0x1b ∷ 91 ∷ 66 ∷ []
bytes right = 0x1b ∷ 91 ∷ 67 ∷ []
bytes left = 0x1b ∷ 91 ∷ 68 ∷ []
bytes page_up = 0x1b ∷ 91 ∷ 53 ∷ 126 ∷ []
bytes page_down = 0x1b ∷ 91 ∷ 54 ∷ 126 ∷ []
bytes (unknown c) = 0x1b ∷ 91 ∷ c ∷ []
bytes (broken digit c) = 0x1b ∷ 91 ∷ digit ∷ c ∷ []

abbrev pub keys : Stroke → List ℕ
keys (char c) = c ∷ []
keys (escaped c) = 0x1b ∷ c ∷ []
keys up = 0x1b ∷ 0x101 ∷ []
keys down = 0x1b ∷ 0x102 ∷ []
keys left = 0x1b ∷ 0x103 ∷ []
keys right = 0x1b ∷ 0x104 ∷ []
keys page_up = 0x1b ∷ 0x105 ∷ []
keys page_down = 0x1b ∷ 0x106 ∷ []
keys (unknown c) = 0x1b ∷ []
keys (broken digit c) = 0x1b ∷ []

unfoldable pub all_bytes : List Stroke → List ℕ
all_bytes [] = []
all_bytes (k ∷ ks) = bytes k ++ all_bytes ks

unfoldable pub all_keys : List Stroke → List ℕ
all_keys [] = []
all_keys (k ∷ ks) = keys k ++ all_keys ks

abbrev pub AllPlain : List Stroke → Type 0
AllPlain [] = Unit
AllPlain (k ∷ ks) = IsPlain k × AllPlain ks

-- One call after the other.
unfoldable pub inject_all : List ℕ → Input → Input
inject_all [] s = s
inject_all (c ∷ cs) s = inject_all cs (inject_byte s c)

-- The keys stand in their order behind the events that were there.
pub record Typed (s : Input) (ks : List ℕ) (r : Input) : Type 0 where
  pub count : r.event_count ≡ s.event_count + length ks
  pub new : (j : ℕ) → j < length ks → nth r (s.event_count + j) ≡ key_event (get_or ks j 0)
  pub old : (j : ℕ) → j < s.event_count → nth r j ≡ nth s j
  pub valid : IsValid r

-- No byte has been sent yet.
start_lem : (s : Input) → IsValid s → Typed s [] s
start_lem s v = record {
  count = omega arith;
  new = λ j h. absurd (omega arith);
  old = λ j h. refl;
  valid = v;
}

get_or-append_first :
    (ks ls : List ℕ) (j : ℕ) → j < length ks → get_or (ks ++ ls) j 0 ≡ get_or ks j 0
get_or-append_first [] ls j h = absurd (omega arith)
get_or-append_first (x ∷ xs) ls zero h = refl
get_or-append_first (x ∷ xs) ls (suc j) h = get_or-append_first xs ls j (omega arith)

get_or-append_later : (ks ls : List ℕ) (j : ℕ) → get_or (ks ++ ls) (length ks + j) 0 ≡ get_or ls j 0
get_or-append_later [] ls j = ap (λ i. get_or ls i 0) (omega arith)
get_or-append_later (x ∷ xs) ls j =
    let next : length (x ∷ xs) + j ≡ suc (length xs + j) = omega arith in
    ap (λ i. get_or (x ∷ xs ++ ls) i 0) next ∙ get_or-append_later xs ls j

-- What is typed later stands behind what is typed first.
Typed-append : (s t r : Input) (ks ls : List ℕ) → Typed s ks t → Typed t ls r → Typed s (ks ++ ls) r
Typed-append s t r ks ls a b = record {
  count = omega (arith, a.count, b.count, length-append ks ls);
  new = λ j h. elim (Bool-cases (ltb j (length ks))) [
    | inl first ↦
        b.old (s.event_count + j) (ground (arith, a.count))
        ∙ a.new j (ground arith)
        ∙ ap key_event (sym (get_or-append_first ks ls j (ground arith)))
    | inr later ↦
        let past : length ks ≤ j = ground arith in
        ap (nth r) (omega (arith, a.count))
        ∙ b.new (j - length ks) (omega (arith, length-append ks ls))
        ∙ ap key_event (
            sym (get_or-append_later ks ls (j - length ks))
            ∙ ap (λ i. get_or (ks ++ ls) i 0) (omega arith))
  ];
  old = λ j h. b.old j (omega (arith, a.count)) ∙ a.old j h;
  valid = b.valid;
}

abbrev some_key : Option ℕ → List ℕ
some_key none = []
some_key (some k) = k ∷ []

one_key : (s r : Input) (key : Option ℕ) → Queued s key r → Typed s (some_key key) r
one_key s r none q = record {
  count = omega (arith, q.none_new refl);
  new = λ j h. absurd (omega arith);
  old = q.old;
  valid = q.valid;
}
one_key s r (some k) q =
    let (n, e) = q.new k refl in
    record {
      count = n;
      new = λ j h. let start : j ≡ 0 = omega arith in rw start (ap (nth r) (omega arith) ∙ e);
      old = q.old;
      valid = q.valid;
    }

-- The keys, and where the automaton is.
abbrev Reached : Input → List ℕ → EscState → ℕ → Input → Type 0
Reached s ks state digit r = Typed s ks r × Moved state digit r

room_lem :
    (n : ℕ) (o : Option ℕ) → n + length (some_key o) ≤ queue_size → (o ≡ none) ⊎ (n < queue_size)
room_lem n none h = inl refl
room_lem n (some k) h = inr (omega arith)

one_byte :
    (s r : Input) (ks : List ℕ) (state : EscState) (digit c : ℕ)
    → Reached s ks state digit r
    → s.event_count + length ks + length (some_key (key_of state digit c)) ≤ queue_size
    → Reached s
        (ks ++ some_key (key_of state digit c))
        (next_state state c)
        (next_discard state digit c)
        (inject_byte r c)
one_byte s r ks state digit c (t, (f, d)) room =
    let fits : r.event_count + length (some_key (key_of r.esc_state r.esc_discard c)) ≤ queue_size =
      subst₂ (λ st dg. r.event_count + length (some_key (key_of st dg c)) ≤ queue_size) (sym f)
        (sym d) (omega (arith, t.count)) in
    let (q, m) =
      inject_byte_lem r c t.valid
        (room_lem r.event_count (key_of r.esc_state r.esc_discard c) fits) in
    subst₂
      (λ st dg.
        Reached s (ks ++ some_key (key_of st dg c)) (next_state st c) (next_discard st dg c)
          (inject_byte r c))
      f d (Typed-append s r (inject_byte r c) ks _ t (one_key r (inject_byte r c) _ q), m)

-- The queue once the automaton is at rest again.
abbrev Done : Input → List ℕ → Input → Type 0
Done s ks r = Typed s ks r × (r.esc_state ≡ idle)

start : (s : Input) → IsValid s → s.esc_state ≡ idle → Reached s [] idle s.esc_discard s
start s v e = (start_lem s v, (e, refl))

other_key :
    (s r : Input) (o k : Option ℕ)
    → o ≡ k
    → Typed s (0x1b ∷ some_key o) r
    → Typed s (0x1b ∷ some_key k) r
other_key s r o k e t = subst (λ x. Typed s (0x1b ∷ some_key x) r) e t

-- The bytes ESC, [ and one that is no digit.
letter_typed :
    (s : Input) (c : ℕ) (key : Option ℕ)
    → IsValid s
    → s.esc_state ≡ idle
    → s.event_count + length (0x1b ∷ some_key key) ≤ queue_size
    → leb 48 c && leb c 57 ≡ false
    → arrow (u8 c) ≡ key
    → Done s (0x1b ∷ some_key key) (inject_byte (inject_byte (inject_byte s 0x1b) 91) c)
letter_typed s c key v e room far letter =
    let a = one_byte s s [] idle s.esc_discard 0x1b (start s v e) (omega arith) in
    let b = one_byte s _ _ _ _ 91 a (omega arith) in
    let (t, (f, d)) =
      one_byte s _ (0x1b ∷ []) got_bracket s.esc_discard c b (rw (far, letter) (omega arith)) in
    (other_key s _ _ key (rw far letter) t, f ∙ rw far refl)

-- The bytes ESC, [, a digit and another byte.
digit_typed :
    (s : Input) (digit c : ℕ) (key : Option ℕ)
    → IsValid s
    → s.esc_state ≡ idle
    → s.event_count + length (0x1b ∷ some_key key) ≤ queue_size
    → leb 48 digit && leb digit 57 ≡ true
    → (if c == 126 then page (u8 digit) else none) ≡ key
    → Done s
        (0x1b ∷ some_key key)
        (inject_byte (inject_byte (inject_byte (inject_byte s 0x1b) 91) digit) c)
digit_typed s digit c key v e room yes_digit number =
    let a = one_byte s s [] idle s.esc_discard 0x1b (start s v e) (omega arith) in
    let b = one_byte s _ _ _ _ 91 a (omega arith) in
    let (t, (f, d)) =
      one_byte s _ (0x1b ∷ []) got_bracket s.esc_discard digit b (rw yes_digit (omega arith)) in
    let (q, (g, h)) =
      one_byte s _ (0x1b ∷ []) got_bracket_digit (u8 digit) c
        (rw yes_digit at t, (f ∙ rw yes_digit refl, d ∙ rw yes_digit refl))
        (rw number (omega arith)) in
    (other_key s _ _ key number q, g)

typed_once :
    (s : Input) (k : Stroke)
    → IsValid s
    → s.esc_state ≡ idle
    → IsPlain k
    → s.event_count + length (keys k) ≤ queue_size
    → Done s (keys k) (inject_all (bytes k) s)
unfolding inject_all
typed_once s (char c) v e plain room =
    let (t, (f, d)) = one_byte s s [] idle s.esc_discard c (start s v e) (omega arith) in
    let other : c == 0x1b ≡ false = ground (arith, plain) in (t, f ∙ rw other refl)
typed_once s (escaped c) v e (plain, closed) room =
    let other : c == 0x1b ≡ false = ground (arith, plain) in
    let open_other : c == 91 ≡ false = ground (arith, closed) in
    let a = one_byte s s [] idle s.esc_discard 0x1b (start s v e) (omega arith) in
    let (t, (f, d)) =
      one_byte s _ (0x1b ∷ []) got_esc s.esc_discard c a (rw open_other (omega arith)) in
    (other_key s _ _ (some c) (rw open_other refl) t, f ∙ rw (open_other, other) refl)
typed_once s up v e plain room = letter_typed s 65 (some 0x101) v e room refl refl
typed_once s down v e plain room = letter_typed s 66 (some 0x102) v e room refl refl
typed_once s left v e plain room = letter_typed s 68 (some 0x103) v e room refl refl
typed_once s right v e plain room = letter_typed s 67 (some 0x104) v e room refl refl
typed_once s page_up v e plain room = digit_typed s 53 126 (some 0x105) v e room refl refl
typed_once s page_down v e plain room = digit_typed s 54 126 (some 0x106) v e room refl refl
typed_once s (unknown c) v e (byte, digit, letter) room =
    let low : u8 c ≡ c = omega arith in
    letter_typed s c none v e room (ground arith) (rw low (ground arith))
typed_once s (broken d c) v e (low, high, other) room =
    let byte : u8 d ≡ d = omega arith in
    digit_typed s d c none v e room (ground arith) (rw byte (ground arith))

inject_all-append :
    (cs ds : List ℕ) (s : Input) → inject_all (cs ++ ds) s ≡ inject_all ds (inject_all cs s)
unfolding inject_all
inject_all-append [] ds s = refl
inject_all-append (c ∷ cs) ds s = inject_all-append cs ds (inject_byte s c)

-- On a valid queue in the idle state with room for all the keys, take any sequence of: characters
-- that are not ESC; characters other than ESC and [ behind an ESC; arrows and page keys, sent as
-- ESC, [ and a letter, or ESC, [, 5 or 6, ~; and sequences of no key, ESC, [ and a byte that is no
-- digit and no arrow's letter, or ESC, [, a digit and a byte that do not make a page key. Its
-- bytes, given to `input_inject_byte` one by one, queue the characters, the ESCs and the keys in
-- their order behind the events that were there, and no other: of a sequence of no key, the ESC
-- alone. The queue stays valid and the automaton is idle again.
pub inject_all_lem :
    (s : Input) (ks : List Stroke)
    → IsValid s
    → s.esc_state ≡ idle
    → AllPlain ks
    → s.event_count + length (all_keys ks) ≤ queue_size
    → Typed s (all_keys ks) (inject_all (all_bytes ks) s)
      × ((inject_all (all_bytes ks) s).esc_state ≡ idle)
unfolding inject_all all_bytes all_keys
inject_all_lem s [] v e plain room = (start_lem s v, e)
inject_all_lem s (k ∷ ks) v e (plain, rest) room =
    let split = length-append (keys k) (all_keys ks) in
    let (t, f) = typed_once s k v e plain (omega (arith, split)) in
    let (u, g) =
      inject_all_lem (inject_all (bytes k) s) ks t.valid f rest (omega (arith, split, t.count)) in
    subst (Done s (keys k ++ all_keys ks)) (sym (inject_all-append (bytes k) (all_bytes ks) s))
      (Typed-append s (inject_all (bytes k) s) _ (keys k) (all_keys ks) t u, g)
