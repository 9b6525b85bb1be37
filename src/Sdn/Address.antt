-- ===== src/Sdn/Address.antt =====
-- test2/a3sdn.cpp: `getAddressInfo`. What the system's resolver returns for a name is an argument.
use cmput.Common.{ℕ, List, [], ◌∷◌, ◌++◌, Option, none, some}
use cmput.Text.{Bytes, codes}
use cmput.Process.{Event, printed, Outcome, running, exited, undefined, ◌>>=◌}

pub data Family : Type 0 where
  af_inet af_inet6 other_family : Family

-- A result of `getaddrinfo`, with the text that `inet_ntop` makes of its address; `none` is a null pointer.
pub record Addrinfo : Type 0 where
  pub ai_family : Family
  pub address : Bytes
  pub ai_canonname : Option Bytes

-- An error code other than 0, or the list of the results.
pub data Resolved : Type 0 where
  failure : ℕ → Resolved
  results : List Addrinfo → Resolved

abbrev invalid_family : Bytes
invalid_family = codes "Error: Invalid IP family. Expected AF_NET or AF_NET6.\n"

address_line : Bytes → Bytes → Bytes → Event
address_line version address canonname = printed (
    codes "IPv"
    ++ (version ++ (codes " address: " ++ (address ++ (codes " (" ++ (canonname ++ codes ")\n"))))))

-- One result, behind what was printed before. A name that is not there is printed with `%s`, which is
-- undefined.
visit : List Event → Family → Bytes → Option Bytes → Outcome (List Event)
unfolding address_line
visit out other_family address name = exited 1 (out ++ printed invalid_family ∷ [])
visit out af_inet address (some name) = running (out ++ address_line (codes "4") address name ∷ [])
visit out af_inet6 address (some name) = running (out ++ address_line (codes "6") address name ∷ [])
visit out _ address none = undefined

-- The loop over the results; `ip_address` is the last text written, which is not set before.
visit_all : List Event → Option Bytes → List Addrinfo → Outcome (Bytes × List Event)
unfolding visit
visit_all out none [] = undefined
visit_all out (some ip_address) [] = running (ip_address, out)
visit_all out ip_address (a ∷ more) = do
  out' ← visit out a.ai_family a.address a.ai_canonname
  visit_all out' (some a.address) more

on_resolved : Bytes → Resolved → Outcome (Bytes × List Event)
unfolding visit_all
on_resolved address (failure code) = exited code []
on_resolved address (results list) =
    visit_all (printed (codes "Host: " ++ (address ++ codes "\n")) ∷ []) none list

-- The address found, and what was printed.
unfoldable pub get_address_info : (Bytes → Resolved) → Bytes → Outcome (Bytes × List Event)
unfolding on_resolved
get_address_info getaddrinfo address = on_resolved address (getaddrinfo address)
