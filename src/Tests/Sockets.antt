-- ===== src/Tests/Sockets.antt =====
-- The theorem on opening a connection, for a name with three addresses.
use tani_dvr.Prelude.{Bool, List, [], arith, get_or, refl, replicate, set, some, ℕ, ◌-◌, ◌==◌, ◌∷◌}
use tani_dvr.Prelude.Int.{ℤ, pos}
use tani_dvr.Sockets.{
  Addrinfo, Family, af_inet, af_inet6, is_inet, is_inet6, first_entry, chosen, net_open,
}
use tani_dvr.Sockets.Tried.{AreUsable, NetOutcome, net_open-Answered}

abbrev address : Family → ℕ → ℕ → Addrinfo
address family n last = record {
  ai_family = family;
  ai_socktype = 1;
  ai_protocol = 6;
  ai_addrlen = n;
  ai_addr = set (replicate n 0) (n - 1) last;
}

abbrev resolved : List Addrinfo
resolved = address af_inet6 28 1 ∷ address af_inet 16 2 ∷ address af_inet 16 3 ∷ []

abbrev stream_socket : Family → ℕ → ℕ → ℤ
stream_socket family type protocol = pos 5

-- Only the first of the IPv4 addresses answers.
abbrev answers : ℕ → List ℕ → Bool
answers tried address = get_or address 15 0 == 2

resolved-AreUsable : AreUsable (chosen resolved)
unfolding AreUsable chosen first_entry is_inet is_inet6
resolved-AreUsable = omega arith

net_open-Answered_example :
    NetOutcome answers
      (chosen resolved)
      5
      2_500_000
      (net_open (some resolved) stream_socket answers 2_500_000)
net_open-Answered_example =
    net_open-Answered (some resolved) stream_socket answers resolved 5 2_500_000 refl
      resolved-AreUsable (λ family type protocol. refl)
