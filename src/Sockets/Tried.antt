-- ===== src/Sockets/Tried.antt =====
-- Which address a connection is opened to.
use tani_dvr.Prelude.{
  All, Bool, Bool-cases, List, Option, [], ap, arith, dec_lt, false, get_or, if_false, inl, inr,
  length, ltb, map, none, refl, some, suc, sym, take, true, zero, ℕ, ◌+◌, ◌-◌, ◌<◌, ◌∙◌, ◌∷◌, ◌≡◌,
  ◌≢◌, ◌≤◌, ◌⊎◌,
}
use mathlib.Core.Path.{subst}
use tani_dvr.Prelude.Int.{ℤ, pos, minus}
use tani_dvr.Stream.{is_negative}
use tani_dvr.Sockets.{
  Addrinfo, Family, Opened, refused, connected, NetOpened, returned, net_timeout, max_sa_entries,
  sizeof_sa, fill_sa, try_addresses, try_filled, connect_chosen, chosen, open_client_socket,
  net_return, net_open, minus_one_times,
}

-- The addresses that are tried: of the chosen entry and of those behind it, ten at most.
unfoldable pub candidates : List Addrinfo → List (List ℕ)
candidates [] = []
candidates (a ∷ ai) = map (λ x. take a.ai_addrlen x.ai_addr) (take max_sa_entries (a ∷ ai))

-- The addresses have the length that the chosen entry tells, which `sa` has room for.
unfoldable pub AreUsable : List Addrinfo → Type 0
AreUsable [] = Unit
AreUsable (a ∷ ai) =
    (a.ai_addrlen ≤ sizeof_sa)
    × All (λ x. a.ai_addrlen ≤ length x.ai_addr) (take max_sa_entries (a ∷ ai))

-- The connection after a try of the addresses: none was there, or `i` is the last that took it.
abbrev pub Answered : (ℕ → List ℕ → Bool) → List (List ℕ) → ℕ → ℕ → NetOpened → Type 0
Answered connect sa fd us result =
    ((i : ℕ) × (i < length sa)
      × (connect (length sa - 1 - i) (get_or sa i []) ≡ true)
      × ((j : ℕ) → i < j → j < length sa → connect (length sa - 1 - j) (get_or sa j []) ≡ false)
      × (result
          ≡ returned
              (record {
                net_sockfd = pos fd;
                timeout_rx = net_timeout us;
                timeout_tx = net_timeout us;
                timeouts_set = some (net_timeout us, net_timeout us);
                peer = some (get_or sa i []);
              })
              (pos 0)))
    ⊎ (((j : ℕ) → j < length sa → connect (length sa - 1 - j) (get_or sa j []) ≡ false)
        × (result
            ≡ returned
                (record {
                  net_sockfd = minus 1;
                  timeout_rx = net_timeout us;
                  timeout_tx = net_timeout us;
                  timeouts_set = none;
                  peer = none;
                })
                (pos 1)))

-- With the list from the chosen entry on: without one, 0 and the descriptor 1.
abbrev pub NetOutcome : (ℕ → List ℕ → Bool) → List Addrinfo → ℕ → ℕ → NetOpened → Type 0
NetOutcome connect l fd us result =
    ((l ≡ [])
      × (result
          ≡ returned
              (record {
                net_sockfd = pos 1;
                timeout_rx = net_timeout us;
                timeout_tx = net_timeout us;
                timeouts_set = none;
                peer = none;
              })
              (pos 0)))
    ⊎ ((l ≢ []) × Answered connect (candidates l) fd us result)

fill_sa-candidates :
    (n sa_len : ℕ) (ai : List Addrinfo)
    → All (λ x. sa_len ≤ length x.ai_addr) (take n ai)
    → fill_sa n sa_len ai ≡ some (map (λ x. take sa_len x.ai_addr) (take n ai))
unfolding fill_sa
fill_sa-candidates zero sa_len ai a = refl
fill_sa-candidates (suc n) sa_len [] a = refl
fill_sa-candidates (suc n) sa_len (x ∷ ai) (h, a) =
    let long : ltb (length x.ai_addr) sa_len ≡ false = ground arith in
    rw (fill_sa-candidates n sa_len ai a, fill_sa) (if_false _ _ _ long)

module _ (getaddrinfo : Option (List Addrinfo)) (socket : Family → ℕ → ℕ → ℤ)
    (connect : ℕ → List ℕ → Bool) where
  abbrev tries : ℕ → List (List ℕ) → ℕ → ℕ → Opened
  tries fd = try_addresses getaddrinfo socket connect (pos fd)

  -- From `n` addresses that are left, `tried` having been refused.
  abbrev Tried : ℕ → List (List ℕ) → ℕ → Opened → Type 0
  Tried fd sa total o =
      ((i : ℕ) × (i < total)
        × (connect (total - 1 - i) (get_or sa i []) ≡ true)
        × ((j : ℕ) → i < j → j < total → connect (total - 1 - j) (get_or sa j []) ≡ false)
        × (o ≡ connected (pos fd) (get_or sa i []) (total - i)))
      ⊎ (((j : ℕ) → j < total → connect (total - 1 - j) (get_or sa j []) ≡ false)
          × (o ≡ refused (minus 1)))

  try_addresses-Tried :
      (fd : ℕ) (sa : List (List ℕ)) (total n tried : ℕ)
      → n + tried ≡ total
      → ((j : ℕ) → n ≤ j → j < total → connect (total - 1 - j) (get_or sa j []) ≡ false)
      → Tried fd sa total (tries fd sa n tried)
  unfolding try_addresses
  try_addresses-Tried fd sa total zero tried e later = inr (λ j h. later j (omega arith) h, refl)
  try_addresses-Tried fd sa total (suc n) tried e later =
      let at : total - 1 - n ≡ tried = omega arith in
      elim (Bool-cases (connect tried (get_or sa n []))) [
        | inl took ↦ inl (
          n,
          omega arith,
          ap (λ t. connect t (get_or sa n [])) at ∙ took,
          λ j h. later j (omega arith),
          rw (took, try_addresses) (ap (connected (pos fd) (get_or sa n [])) (omega arith)),
        )
        | inr failed ↦
            rw (failed, try_addresses)
              (try_addresses-Tried fd sa total n (tried + 1) (omega arith) (λ j h b.
                elim (dec_lt n j) [
                  | yes above ↦ later j (omega arith) b
                  | no below ↦
                      let same : j ≡ n = omega arith in
                      ap (λ x. connect (total - 1 - x) (get_or sa x [])) same
                      ∙ (ap (λ t. connect t (get_or sa n [])) at ∙ failed)
                ]))
      ]

  connect_chosen-usable :
      (a : Addrinfo) (ai : List Addrinfo) (fd : ℕ)
      → AreUsable (a ∷ ai)
      → socket a.ai_family a.ai_socktype a.ai_protocol ≡ pos fd
      → connect_chosen getaddrinfo socket connect (a ∷ ai)
        ≡ tries fd (candidates (a ∷ ai)) (length (candidates (a ∷ ai))) 0
  unfolding connect_chosen try_filled AreUsable candidates is_negative
  connect_chosen-usable a ai fd (small, long) e =
      let fits : ltb sizeof_sa a.ai_addrlen ≡ false = ground arith in
      if_false _ _ _ fits
      ∙ (ap (try_filled getaddrinfo socket connect (socket a.ai_family a.ai_socktype a.ai_protocol))
            (fill_sa-candidates max_sa_entries a.ai_addrlen (a ∷ ai) long)
          ∙ ap (λ s. try_filled getaddrinfo socket connect s (some (candidates (a ∷ ai)))) e)

  returned-Answered :
      (fd us : ℕ) (sa : List (List ℕ)) (o : Opened)
      → Tried fd sa (length sa) o
      → Answered connect sa fd us (net_return (net_timeout us) o)
  unfolding net_return is_negative minus_one_times
  returned-Answered fd us sa o (inl (i, below, took, later, e)) =
      inl (i, below, took, later, ap (net_return (net_timeout us)) e)
  returned-Answered fd us sa o (inr (none_took, e)) =
      inr (none_took, ap (net_return (net_timeout us)) e)

  chosen-NetOutcome :
      (l : List Addrinfo) (fd us : ℕ)
      → AreUsable l
      → ((family : Family) (type protocol : ℕ) → socket family type protocol ≡ pos fd)
      → NetOutcome connect l fd us
          (net_return (net_timeout us) (connect_chosen getaddrinfo socket connect l))
  unfolding connect_chosen net_return is_negative
  chosen-NetOutcome [] fd us usable sockets = inl (refl, refl)
  chosen-NetOutcome (a ∷ ai) fd us usable sockets =
      let sa = candidates (a ∷ ai) in
      inr (
        λ e. cc,
        subst (λ o. Answered connect sa fd us (net_return (net_timeout us) o))
            (sym (
              connect_chosen-usable a ai fd usable
                (sockets a.ai_family a.ai_socktype a.ai_protocol)))
            (returned-Answered fd us sa (tries fd sa (length sa) 0) (
              try_addresses-Tried fd sa (length sa) (length sa) 0 (omega arith)
                (λ j h b. absurd (omega arith)))),
      )

  abbrev opened : Option (List Addrinfo) → Opened
  opened none = refused (minus 1)
  opened (some ai) = connect_chosen getaddrinfo socket connect (chosen ai)

  -- For a name that is resolved, with addresses of the length they tell and a socket that is
  -- created: net_open tries the chosen address and those behind it in the list, ten at most, from
  -- the last to the first. It returns 0 with the socket connected to the last of them that answers,
  -- and with the timeouts set on it, or 1 if none answers. If there is neither an IPv4 nor an IPv6
  -- address, it returns 0 with the descriptor 1, which is no socket.
  pub net_open-Answered :
      (ai : List Addrinfo) (fd us : ℕ)
      → getaddrinfo ≡ some ai
      → AreUsable (chosen ai)
      → ((family : Family) (type protocol : ℕ) → socket family type protocol ≡ pos fd)
      → NetOutcome connect (chosen ai) fd us (net_open getaddrinfo socket connect us)
  unfolding net_open open_client_socket
  net_open-Answered ai fd us e usable sockets =
      subst
        (λ (g : Option (List Addrinfo)).
          NetOutcome connect (chosen ai) fd us (net_return (net_timeout us) (opened g)))
        (sym e) (chosen-NetOutcome (chosen ai) fd us usable sockets)
