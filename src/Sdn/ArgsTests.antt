-- ===== src/Sdn/ArgsTests.antt =====
-- test2/a3sdn.cpp: command lines on concrete inputs.
use cmput.Common.{◌≡◌, refl, Bool, true, [], ◌∷◌, none, some, pos, negsuc, arith}
use cmput.Text.{Bytes, codes}
use cmput.Text.Number.{to_string}
use cmput.Process.{printed, running, undefined}
use cmput.Sdn.Address.{Addrinfo, af_inet, Resolved, results, get_address_info}
use cmput.Sdn.Args.{switch_loop, launch}
use cmput.Sdn.Args.Launched.{port_name, range_text, launch-switch_loop}

abbrev opens : Bytes → Bool
opens file = true

abbrev localhost : Addrinfo
localhost = record {
  ai_family = af_inet;
  address = codes "127.0.0.1";
  ai_canonname = some (codes "localhost");
}

abbrev one_address : Bytes → Resolved
one_address name = results (localhost ∷ [])

abbrev two_addresses : Bytes → Resolved
two_addresses name = results (localhost ∷ record localhost { ai_canonname = none } ∷ [])

-- The name stands in the first result only.
two_addresses_undefined : get_address_info two_addresses (codes "localhost") ≡ undefined
unfolding get_address_info
two_addresses_undefined = refl

launch-switch_loop_example :
    launch opens one_address (
      port_name (some 1)
      ∷ codes "t.dat"
      ∷ port_name none
      ∷ port_name (some 2)
      ∷ range_text 100 110
      ∷ codes "localhost"
      ∷ to_string (pos 9000)
      ∷ [])
    ≡ running (
      switch_loop (pos 1) (negsuc 0) (pos 2) (pos 100, pos 110) (codes "127.0.0.1") 9000,
      printed (codes "Host: localhost\n")
          ∷ printed (codes "IPv4 address: 127.0.0.1 (localhost)\n")
          ∷ printed (codes "Found IP: 127.0.0.1\n")
          ∷ [],
    )
unfolding get_address_info
launch-switch_loop_example =
    launch-switch_loop opens one_address 1 (codes "t.dat") none (some 2) 100 110 (codes "localhost")
      9000 (codes "127.0.0.1")
      (printed (codes "Host: localhost\n")
        ∷ printed (codes "IPv4 address: 127.0.0.1 (localhost)\n")
        ∷ [])
      (omega arith) tt (omega arith) (omega arith) (omega arith) (omega arith) refl refl
