-- ===== src/DhcpOptions/Bounds.antt =====
-- kernel/net/dhcp_options.c ends and stays within the given length.
use kolibriarm.Base.{
  ℕ, zero, suc, ◌+◌, ◌-◌, ◌<◌, ◌≤◌, ◌≡◌, refl, ap, ◌∙◌, ◌&&◌, List, Option, some, ltb, leb, ◌==◌,
  if◌then◌else◌, bit_or, Status, ok, failed, arith, inl, inr, Bool-cases,
}
use kolibriarm.DhcpOptions.{
  Options, cleared, byte, has_magic_cookie, get_ipv4, store, Round, halt, next, round, parse_from,
  parse,
}

-- A round that goes on moves ahead.
data Ahead (pos len : ℕ) : Round → Type 0 where
  stops : (s : Status) → Ahead pos len (halt s)
  moves : (p : ℕ) (out : Options) → pos < p → p ≤ len → Ahead pos len (next p out)

round-Ahead :
    (options : List ℕ) (len pos : ℕ) (out : Options) → Ahead pos len (round options len pos out)
unfolding round
round-Ahead options len pos out = elim (Bool-cases (ltb pos len)) [
  | inr over ↦ rw over (stops ok)
  | inl inside ↦ rw inside (elim (Bool-cases (byte options pos == 255)) [
    | inl last ↦ rw last (stops ok)
    | inr not_last ↦ rw not_last (elim (Bool-cases (byte options pos == 0)) [
      | inl pad ↦ rw pad (moves _ _ (omega arith) (ground arith))
      | inr not_pad ↦ rw not_pad (elim (Bool-cases (leb len (pos + 1))) [
        | inl short ↦ rw short (stops failed)
        | inr enough ↦
            rw enough (elim (Bool-cases (ltb (len - (pos + 2)) (byte options (pos + 1)))) [
              | inl cut ↦ rw cut (stops failed)
              | inr fits ↦ rw fits (moves _ _ (omega arith) (ground arith))
            ])
      ])
    ])
  ])
]

parse_from_total :
    (n : ℕ) (options : List ℕ) (len pos : ℕ) (out : Options)
    → pos ≤ len
    → len < pos + n
    → (r : Status × Options) × (parse_from n options len pos out ≡ some r)
unfolding parse_from
parse_from_total zero options len pos out k h = absurd (omega arith)
parse_from_total (suc n) options len pos out k h =
    go (round options len pos out) (round-Ahead options len pos out)
      (parse_from_total n options len)
  where
    go :
        (r : Round)
        → Ahead pos len r
        → ((p : ℕ) (left : Options)
            → p ≤ len
            → len < p + n
            → (x : Status × Options) × (parse_from n options len p left ≡ some x))
        → (x : Status × Options) × ((elim r as (λ y. Option (Status × Options)) [
          | halt status ↦ some (status, out)
          | next p left ↦ parse_from n options len p left
        ])
            ≡ some x)
    go (halt status) (stops _) rest = ((status, out), refl)
    go (next p left) (moves _ _ h' k') rest = rest p left k' (omega arith)

-- Two memories with the same bytes below the length.
abbrev pub Agree : ℕ → List ℕ → List ℕ → Type 0
Agree len xs ys = (i : ℕ) → i < len → byte xs i ≡ byte ys i

get_ipv4-Agree :
    (len value : ℕ) (xs ys : List ℕ)
    → Agree len xs ys
    → value + 4 ≤ len
    → get_ipv4 xs value ≡ get_ipv4 ys value
get_ipv4-Agree len value xs ys a h =
    rw
      (
        a value (omega arith),
        a (value + 1) (omega arith),
        a (value + 2) (omega arith),
        a (value + 3) (omega arith),
      )
      refl

store-Agree :
    (len code opt_len value : ℕ) (xs ys : List ℕ) (out : Options)
    → Agree len xs ys
    → value + opt_len ≤ len
    → store xs code opt_len value out ≡ store ys code opt_len value out
unfolding store
store-Agree len code opt_len value xs ys out a h = elim (Bool-cases (code == 53 && leb 1 opt_len)) [
  | inl e ↦ rw e (ap (λ k. record out { message_type = k }) (a value (ground arith)))
  | inr e1 ↦ rw e1 (elim (Bool-cases (code == 1 && leb 4 opt_len)) [
    | inl e ↦
        rw e (ap (λ k. record out { subnet = k; flags = bit_or out.flags 1 }) (same (ground arith)))
    | inr e2 ↦ rw e2 (elim (Bool-cases (code == 3 && leb 4 opt_len)) [
      | inl e ↦
          rw e
            (ap (λ k. record out { gateway = k; flags = bit_or out.flags 2 }) (same (ground arith)))
      | inr e3 ↦ rw e3 (elim (Bool-cases (code == 6 && leb 4 opt_len)) [
        | inl e ↦
            rw e
              (ap (λ k. record out { dns = k; flags = bit_or out.flags 4 }) (same (ground arith)))
        | inr e4 ↦ rw e4 (elim (Bool-cases (code == 54 && leb 4 opt_len)) [
          | inl e ↦ rw e (
              ap (λ k. record out { server_id = k; flags = bit_or out.flags 8 })
                (same (ground arith)))
          | inr e5 ↦ rw e5 refl
        ])
      ])
    ])
  ])
]
  where
    same : 4 ≤ opt_len → get_ipv4 xs value ≡ get_ipv4 ys value
    same k = get_ipv4-Agree len value xs ys a (omega arith)

round-Agree :
    (len pos : ℕ) (xs ys : List ℕ) (out : Options)
    → Agree len xs ys
    → round xs len pos out ≡ round ys len pos out
unfolding round
round-Agree len pos xs ys out a = elim (Bool-cases (ltb pos len)) [
  | inr over ↦ rw over refl
  | inl inside ↦
      rw (inside, a pos (ground arith))
        (elim (Bool-cases (byte ys pos == 255)) [
          | inl last ↦ rw last refl
          | inr not_last ↦ rw not_last (elim (Bool-cases (byte ys pos == 0)) [
            | inl pad ↦ rw pad refl
            | inr not_pad ↦ rw not_pad (elim (Bool-cases (leb len (pos + 1))) [
              | inl short ↦ rw short refl
              | inr enough ↦
                  rw (enough, a (pos + 1) (ground arith))
                    (elim (Bool-cases (ltb (len - (pos + 2)) (byte ys (pos + 1)))) [
                      | inl cut ↦ rw cut refl
                      | inr fits ↦ rw fits (
                          ap (next (pos + 2 + byte ys (pos + 1))) (
                            store-Agree len (byte ys pos) (byte ys (pos + 1)) (pos + 2) xs ys out a
                              (ground arith)))
                    ])
            ])
          ])
        ])
]

parse_from-Agree :
    (n : ℕ) (len pos : ℕ) (xs ys : List ℕ) (out : Options)
    → Agree len xs ys
    → parse_from n xs len pos out ≡ parse_from n ys len pos out
unfolding parse_from
parse_from-Agree zero len pos xs ys out a = refl
parse_from-Agree (suc n) len pos xs ys out a =
    ap (resume xs) (round-Agree len pos xs ys out a)
    ∙ go (round ys len pos out) (λ p left. parse_from-Agree n len p xs ys left a)
  where
    resume : List ℕ → Round → Option (Status × Options)
    resume zs r = elim r [
      | halt status ↦ some (status, out)
      | next p left ↦ parse_from n zs len p left
    ]

    go :
        (r : Round)
        → ((p : ℕ) (left : Options) → parse_from n xs len p left ≡ parse_from n ys len p left)
        → resume xs r ≡ resume ys r
    go (halt status) rest = refl
    go (next p left) rest = rest p left

cookie-Agree :
    (xs ys : List ℕ) (len : ℕ) → Agree len xs ys → has_magic_cookie xs len ≡ has_magic_cookie ys len
cookie-Agree xs ys len a = elim (Bool-cases (leb 4 len)) [
  | inr short ↦ rw short refl
  | inl long ↦
      let h : 4 ≤ len = ground arith in
      rw (a 0 (omega arith), a 1 (omega arith), a 2 (omega arith), a 3 (omega arith)) refl
]

-- `dhcp_options_parse` returns within `len + 1` rounds of its loop, for any bytes and any length.
pub parse_total :
    (options : List ℕ) (len : ℕ) → (r : Status × Options) × (parse options len ≡ some r)
unfolding parse
parse_total options len =
    parse_from_total (len + 1) options len _ cleared (ground arith) (omega arith)

-- `dhcp_options_parse` reads no byte from the length on: two memories with the same bytes below the
-- length give the same result.
pub parse-Agree : (xs ys : List ℕ) (len : ℕ) → Agree len xs ys → parse xs len ≡ parse ys len
unfolding parse
parse-Agree xs ys len a =
    ap (λ c. parse_from (len + 1) xs len (if c then 4 else 0) cleared) (cookie-Agree xs ys len a)
    ∙ parse_from-Agree (len + 1) len _ xs ys cleared a
