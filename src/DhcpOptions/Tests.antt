-- ===== src/DhcpOptions/Tests.antt =====
-- Options of a DHCP message as bytes.
use kolibriarm.Base.{ℕ, ◌≡◌, refl, List, [], ◌∷◌, some, Status, ok, arith, zero, suc}
use kolibriarm.DhcpOptions.{Options, store, round, parse_from, parse, cleared}
use kolibriarm.DhcpOptions.Bounds.{Agree, parse_total, parse-Agree}

-- An offer with the subnet 255.255.255.0, after the magic cookie.
abbrev offer : List ℕ
offer = 0x63 ∷ 0x82 ∷ 0x53 ∷ 0x63 ∷ 53 ∷ 1 ∷ 2 ∷ 0 ∷ 1 ∷ 4 ∷ 255 ∷ 255 ∷ 255 ∷ 0 ∷ 255 ∷ []

parse_total_example : (r : Status × Options) × (parse offer 15 ≡ some r)
parse_total_example = parse_total offer 15

offer-Agree : Agree 2 (53 ∷ 1 ∷ 2 ∷ []) (53 ∷ 1 ∷ [])
offer-Agree zero h = refl
offer-Agree (suc zero) h = refl
offer-Agree (suc (suc i)) h = absurd (omega arith)

parse-Agree_example : parse (53 ∷ 1 ∷ 2 ∷ []) 2 ≡ parse (53 ∷ 1 ∷ []) 2
parse-Agree_example = parse-Agree (53 ∷ 1 ∷ 2 ∷ []) (53 ∷ 1 ∷ []) 2 offer-Agree

offer_parsed :
    parse offer 15 ≡ some (ok, record cleared { message_type = 2; subnet = 0x00ffffff; flags = 1 })
unfolding parse parse_from round store
offer_parsed = refl
