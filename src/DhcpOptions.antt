-- ===== src/DhcpOptions.antt =====
-- kernel/net/dhcp_options.c: the parser of the options of a DHCP message. `options` is the memory that
-- the pointer leads to and `len` the length that the caller gives. Neither pointer is null, and the
-- model returns what `*out` holds beside the status.
pub mod Bounds
mod Tests
use kolibriarm.Base.{
  ℕ, zero, suc, ◌+◌, ◌-◌, ◌*◌, ◌^◌, Bool, true, false, ◌&&◌, List, Option, none, some, ltb, leb,
  ◌==◌, if◌then◌else◌, get_or, bit_or, Status, ok, failed,
}

pub record Options : Type 0 where
  pub message_type : ℕ
  pub flags : ℕ
  pub subnet : ℕ
  pub gateway : ℕ
  pub dns : ℕ
  pub server_id : ℕ

abbrev pub cleared : Options
cleared = record { message_type = 0; flags = 0; subnet = 0; gateway = 0; dns = 0; server_id = 0 }

abbrev pub byte : List ℕ → ℕ → ℕ
byte options i = get_or options i 0

abbrev pub has_magic_cookie : List ℕ → ℕ → Bool
has_magic_cookie options len =
    leb 4 len
    && byte options 0 == 0x63
    && byte options 1 == 0x82
    && byte options 2 == 0x53
    && byte options 3 == 0x63

-- The four bytes from index i on.
abbrev pub get_ipv4 : List ℕ → ℕ → ℕ
get_ipv4 options i =
    bit_or
      (bit_or (bit_or (byte options i) (byte options (i + 1) * 2 ^ 8))
        (byte options (i + 2) * 2 ^ 16))
      (byte options (i + 3) * 2 ^ 24)

-- What an option of that code, whose value begins at index `value`, leaves in `*out`.
pub store : List ℕ → ℕ → ℕ → ℕ → Options → Options
store options code opt_len value out =
    if code == 53 && leb 1 opt_len
    then record out { message_type = byte options value }
    else if code == 1 && leb 4 opt_len
    then record out { subnet = get_ipv4 options value; flags = bit_or out.flags 1 }
    else if code == 3 && leb 4 opt_len
    then record out { gateway = get_ipv4 options value; flags = bit_or out.flags 2 }
    else if code == 6 && leb 4 opt_len
    then record out { dns = get_ipv4 options value; flags = bit_or out.flags 4 }
    else if code == 54 && leb 4 opt_len
    then record out { server_id = get_ipv4 options value; flags = bit_or out.flags 8 }
    else out

-- A round returns, or goes on with `pos` and `*out`.
pub data Round : Type 0 where
  halt : Status → Round
  next : ℕ → Options → Round

pub round : List ℕ → ℕ → ℕ → Options → Round
round options len pos out =
    if ltb pos len
    then if byte options pos == 255
      then halt ok
      else if byte options pos == 0
      then next (pos + 1) out
      else if leb len (pos + 1)
      then halt failed
      else if ltb (len - (pos + 2)) (byte options (pos + 1))
      then halt failed
      else next (pos + 2 + byte options (pos + 1))
          (store options (byte options pos) (byte options (pos + 1)) (pos + 2) out)
    else halt ok

-- The loop with fuel for n rounds; `none` if the fuel does not last.
pub parse_from : ℕ → List ℕ → ℕ → ℕ → Options → Option (Status × Options)
parse_from zero options len pos out = none
parse_from (suc n) options len pos out = elim (round options len pos out) [
  | halt status ↦ some (status, out)
  | next more left ↦ parse_from n options len more left
]

pub parse : List ℕ → ℕ → Option (Status × Options)
parse options len =
    parse_from (len + 1) options len (if has_magic_cookie options len then 4 else 0) cleared
