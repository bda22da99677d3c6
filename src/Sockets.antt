-- ===== src/Sockets.antt =====
-- src/network.c: net_open and open_client_socket, with IPv6, over what the system answers.
-- net_close closes the two streams.
pub mod Tried
use tani_dvr.Prelude.{
  ==_iff, All, All-append, All-get_or, All-split, Bool, Bool-cases, List, Option, [], add-one, ap,
  append-nil, append_assoc, append_inj, arith, dec_lt, drop, drop-drop, drop-length_append,
  drop-past, false, flatten, get_or, get_or-append, get_or-cons, get_or-past, get_or-set,
  get_or-splice, get_or-splice_in, get_or-splice_out, get_or-tabulate, if_cases, if_false, if_true,
  if◌then◌else◌, inl, inr, leb, leb→le, length, length-append, length-drop, length-replicate,
  length-set, length-splice, length-tabulate, length-take, list_ext, ltb, ltb→le, ltb→lt, lt→ltb,
  map, none, not, refl, replicate, set, some, splice, sub_size, suc, sym, tabulate, tabulate-add,
  tabulate-get_or, tabulate_congr, take, take-append-drop, take-length_append, take-past, true,
  window, window-front, window_cut, window_split, window_total, zero, ℕ, ◌%◌, ◌&&◌, ◌*◌, ◌++◌, ◌+◌,
  ◌-◌, ◌/◌, ◌<◌, ◌==◌, ◌^◌, ◌||◌, ◌↔◌, ◌∙◌, ◌∷◌, ◌≡◌, ◌≢◌, ◌≤◌, ◌⊎◌,
}
use tani_dvr.Prelude.Int.{ℤ, pos, minus, negsuc}
use tani_dvr.Stream.{is_negative}

abbrev pub max_sa_entries : ℕ
max_sa_entries = 10

-- `sizeof (struct sockaddr_in6)`.
abbrev pub sizeof_sa : ℕ
sizeof_sa = 28

pub data Family : Type 0 where
  af_inet af_inet6 af_other : Family

-- What is used of a `struct addrinfo`; `ai_next` is the rest of the list.
pub record Addrinfo : Type 0 where
  pub ai_family : Family
  pub ai_socktype : ℕ
  pub ai_protocol : ℕ
  pub ai_addrlen : ℕ
  pub ai_addr : List ℕ

-- `struct timeval`.
pub record Timeval : Type 0 where
  pub tv_sec : ℕ
  pub tv_usec : ℕ

-- How open_client_socket ends: the value it returns, with the address that took the connection and
-- how many were tried; or a copy that reads behind an address.
pub data Opened : Type 0 where
  refused : ℤ → Opened
  connected : ℤ → List ℕ → ℕ → Opened
  over_read : Opened

unfoldable pub is_inet : Family → Bool
is_inet af_inet = true
is_inet af_inet6 = false
is_inet af_other = false

unfoldable pub is_inet6 : Family → Bool
is_inet6 af_inet = false
is_inet6 af_inet6 = true
is_inet6 af_other = false

-- `aiv4` or `aiv6`: the list from its first entry of a family on.
unfoldable pub first_entry : (Family → Bool) → List Addrinfo → List Addrinfo
first_entry of_family [] = []
first_entry of_family (a ∷ ai) = if of_family a.ai_family then a ∷ ai else first_entry of_family ai

-- An IPv4 address if there is one, else IPv6.
unfoldable pub chosen : List Addrinfo → List Addrinfo
chosen ai = elim (first_entry is_inet ai) [ [] ↦ first_entry is_inet6 ai | a ∷ rest ↦ a ∷ rest ]

-- The array `sa`: `sa_len` bytes of each entry that has room, whatever its family; `none` if an entry
-- has fewer.
unfoldable pub fill_sa : ℕ → ℕ → List Addrinfo → Option (List (List ℕ))
fill_sa zero sa_len ai = some []
fill_sa (suc n) sa_len [] = some []
fill_sa (suc n) sa_len (a ∷ ai) = elim (fill_sa n sa_len ai) [
  | none ↦ none
  | some sa ↦ if ltb (length a.ai_addr) sa_len then none else some (take sa_len a.ai_addr ∷ sa)
]

-- `t_net_connection`, with what setsockopt was given and the address that the socket is connected to;
-- the two streams that fdopen makes of the socket are left out.
pub record NetConnection : Type 0 where
  pub net_sockfd : ℤ
  pub timeout_rx : Timeval
  pub timeout_tx : Timeval
  pub timeouts_set : Option (Timeval × Timeval)
  pub peer : Option (List ℕ)

pub data NetOpened : Type 0 where
  returned : NetConnection → ℤ → NetOpened
  read_behind : NetOpened

unfoldable pub minus_one_times : ℤ → ℤ
minus_one_times (pos n) = minus n
minus_one_times (negsuc n) = pos (suc n)

unfoldable pub net_timeout : ℕ → Timeval
net_timeout sock_timeout_us = record {
  tv_sec = sock_timeout_us / 1_000_000;
  tv_usec = sock_timeout_us % 1_000_000;
}

unfoldable pub net_return : Timeval → Opened → NetOpened
net_return t (refused net_sockfd) =
    returned
      (record {
        net_sockfd = net_sockfd;
        timeout_rx = t;
        timeout_tx = t;
        timeouts_set = none;
        peer = none;
      })
      (if is_negative net_sockfd then minus_one_times net_sockfd else pos 0)
net_return t (connected net_sockfd address tried) =
    returned
      (record {
        net_sockfd = net_sockfd;
        timeout_rx = t;
        timeout_tx = t;
        timeouts_set = some (t, t);
        peer = some address;
      })
      (if is_negative net_sockfd then minus_one_times net_sockfd else pos 0)
net_return t over_read = read_behind

-- What the system answers: the list for the name, the socket (from its family, type and protocol),
-- and the connection to an address, when `n` have been tried before.
module _ (getaddrinfo : Option (List Addrinfo)) (socket : Family → ℕ → ℕ → ℤ)
    (connect : ℕ → List ℕ → Bool) where
  -- The loop `while (sa_entries--)`: from the last address to the first.
  unfoldable pub try_addresses : ℤ → List (List ℕ) → ℕ → ℕ → Opened
  try_addresses sockfd sa zero tried = refused (minus 1)
  try_addresses sockfd sa (suc n) tried = elim (connect tried (get_or sa n [])) [
    | true ↦ connected sockfd (get_or sa n []) (tried + 1)
    | false ↦ try_addresses sockfd sa n (tried + 1)
  ]

  unfoldable pub try_filled : ℤ → Option (List (List ℕ)) → Opened
  try_filled sockfd none = over_read
  try_filled sockfd (some sa) =
      if is_negative sockfd then refused (minus 1) else try_addresses sockfd sa (length sa) 0

  -- With the list from the chosen entry on.
  unfoldable pub connect_chosen : List Addrinfo → Opened
  connect_chosen [] = refused (pos 1)
  connect_chosen (a ∷ ai) =
      if ltb sizeof_sa a.ai_addrlen
      then refused (minus 1)
      else try_filled (socket a.ai_family a.ai_socktype a.ai_protocol)
          (fill_sa max_sa_entries a.ai_addrlen (a ∷ ai))

  unfoldable pub open_client_socket : Opened
  open_client_socket = elim getaddrinfo [
    | none ↦ refused (minus 1)
    | some ai ↦ connect_chosen (chosen ai)
  ]

  unfoldable pub net_open : ℕ → NetOpened
  net_open sock_timeout_us = net_return (net_timeout sock_timeout_us) open_client_socket
