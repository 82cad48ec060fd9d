-- ===== src/Sort.antt =====
-- src/lib/ares__sortaddrinfo.c: the order of RFC 6724 on destination addresses.
pub mod Order
pub mod Sorted
use c_ares.Base.{
  ℕ, zero, suc, ◌+◌, ◌*◌, Bool, true, false, not, ◌&&◌, ◌||◌, ℤ, sub, leb, ◌==◌, if◌then◌else◌,
  bit_and, bit_xor,
}

-- `struct sockaddr`: an IPv4 address in host order, the sixteen bytes of an IPv6 address by their
-- index, or another family
pub data SockAddr : Type 0 where
  inet : ℕ → SockAddr
  inet6 : (ℕ → ℕ) → SockAddr
  other : SockAddr

-- the `n` bytes from the index `i` are zero
unfoldable pub zeros : (ℕ → ℕ) → ℕ → ℕ → Bool
zeros s i zero = true
zeros s i (suc n) = s i == 0 && zeros s (i + 1) n

-- The macros IN6_IS_ADDR_* of <netinet/in.h>.
unfoldable pub in6_multicast : (ℕ → ℕ) → Bool
in6_multicast s = s 0 == 0xff

unfoldable pub in6_loopback : (ℕ → ℕ) → Bool
in6_loopback s = zeros s 0 15 && s 15 == 1

unfoldable pub in6_linklocal : (ℕ → ℕ) → Bool
in6_linklocal s = s 0 == 0xfe && bit_and (s 1) 0xc0 == 0x80

unfoldable pub in6_sitelocal : (ℕ → ℕ) → Bool
in6_sitelocal s = s 0 == 0xfe && bit_and (s 1) 0xc0 == 0xc0

unfoldable pub in6_v4mapped : (ℕ → ℕ) → Bool
in6_v4mapped s = zeros s 0 10 && s 10 == 0xff && s 11 == 0xff

unfoldable pub in6_v4compat : (ℕ → ℕ) → Bool
in6_v4compat s = zeros s 0 12 && not (zeros s 12 3 && leb (s 15) 1)

-- The macros ARES_IN6_IS_ADDR_*.
unfoldable pub in6_ula : (ℕ → ℕ) → Bool
in6_ula s = bit_and (s 0) 0xfe == 0xfc

unfoldable pub in6_teredo : (ℕ → ℕ) → Bool
in6_teredo s = s 0 == 0x20 && s 1 == 0x01 && s 2 == 0 && s 3 == 0

unfoldable pub in6_6to4 : (ℕ → ℕ) → Bool
in6_6to4 s = s 0 == 0x20 && s 1 == 0x02

unfoldable pub in6_6bone : (ℕ → ℕ) → Bool
in6_6bone s = s 0 == 0x3f && s 1 == 0xfe

-- ARES_IPV6_ADDR_SCOPE_*
abbrev pub scope_nodelocal : ℕ
scope_nodelocal = 1

abbrev pub scope_linklocal : ℕ
scope_linklocal = 2

abbrev pub scope_sitelocal : ℕ
scope_sitelocal = 5

abbrev pub scope_global : ℕ
scope_global = 14

unfoldable pub get_scope : SockAddr → ℕ
get_scope (inet6 s) =
    if in6_multicast s
    then bit_and (s 1) 0x0f
    else if in6_loopback s || in6_linklocal s
    then scope_linklocal
    else if in6_sitelocal s
    then scope_sitelocal
    else scope_global
get_scope (inet na) =
    if bit_and na 0xff000000 == 0x7f000000 || bit_and na 0xffff0000 == 0xa9fe0000
    then scope_linklocal
    else scope_global
get_scope other = scope_nodelocal

unfoldable pub get_label : SockAddr → ℕ
get_label (inet na) = 4
get_label (inet6 s) =
    if in6_loopback s
    then 0
    else if in6_v4mapped s
    then 4
    else if in6_6to4 s
    then 2
    else if in6_teredo s
    then 5
    else if in6_ula s
    then 13
    else if in6_v4compat s
    then 3
    else if in6_sitelocal s
    then 11
    else if in6_6bone s
    then 12
    else 1
get_label other = 1

unfoldable pub get_precedence : SockAddr → ℕ
get_precedence (inet na) = 35
get_precedence (inet6 s) =
    if in6_loopback s
    then 50
    else if in6_v4mapped s
    then 35
    else if in6_6to4 s
    then 30
    else if in6_teredo s
    then 5
    else if in6_ula s
    then 3
    else if in6_v4compat s || in6_sitelocal s || in6_6bone s
    then 1
    else 40
get_precedence other = 1

-- `for (j = 0; j < CHAR_BIT; ++j)`, with the rounds that are left: the first bit of `x`, or `none`
-- as a byte without one; `x <<= 1` keeps what it pushes out, which no later test reads.
unfoldable pub first_bit : ℕ → ℕ → ℕ → ℕ → ℕ
first_bit zero j x rest = rest
first_bit (suc n) j x rest =
    let later = first_bit n (j + 1) (x * 2) rest in if not (bit_and x 0x80 == 0) then j else later

-- `for (i = 0; i < sizeof(*a1); ++i)`, with the rounds that are left
unfoldable pub prefix_loop : (ℕ → ℕ) → (ℕ → ℕ) → ℕ → ℕ → ℕ
prefix_loop p1 p2 zero i = i * 8
prefix_loop p1 p2 (suc n) i =
    let rest = prefix_loop p1 p2 n (i + 1) in
    if p1 i == p2 i then rest else first_bit 8 (i * 8) (bit_xor (p1 i) (p2 i)) rest

unfoldable pub common_prefix_len : (ℕ → ℕ) → (ℕ → ℕ) → ℕ
common_prefix_len a1 a2 = prefix_loop a1 a2 16 0

-- `struct addrinfo_sort_elem`; `src_addr` counts only if `has_src_addr` is not 0.
pub record SortElem : Type 0 where
  pub ai_addr : SockAddr
  pub has_src_addr : ℕ
  pub src_addr : SockAddr
  pub original_order : ℕ

abbrev pub is_inet6 : SockAddr → Bool
is_inet6 (inet6 s) = true
is_inet6 _ = false

-- the bytes of an IPv6 address; `getsockname` gives a source address of the destination's family
abbrev pub sin6_addr : SockAddr → ℕ → ℕ
sin6_addr (inet6 s) = s
sin6_addr _ = λ i. 0

-- rules 2 and 5: `scope_match1` and `label_match1`
unfoldable pub scope_match : SortElem → ℕ
scope_match a =
    let scope_src = if a.has_src_addr == 0 then scope_nodelocal else get_scope a.src_addr in
    if scope_src == get_scope a.ai_addr then 1 else 0

unfoldable pub label_match : SortElem → ℕ
label_match a =
    let label_src = if a.has_src_addr == 0 then 1 else get_label a.src_addr in
    if label_src == get_label a.ai_addr then 1 else 0

-- the test of rule 9, for one element
unfoldable pub has_prefix : SortElem → Bool
has_prefix a = not (a.has_src_addr == 0) && is_inet6 a.ai_addr

unfoldable pub prefixlen : SortElem → ℕ
prefixlen a = common_prefix_len (sin6_addr a.src_addr) (sin6_addr a.ai_addr)

unfoldable pub rfc6724_compare : SortElem → SortElem → ℤ
rfc6724_compare a1 a2 =
    if not (a1.has_src_addr == a2.has_src_addr)
    then sub a2.has_src_addr a1.has_src_addr
    else if not (scope_match a1 == scope_match a2)
    then sub (scope_match a2) (scope_match a1)
    else if not (label_match a1 == label_match a2)
    then sub (label_match a2) (label_match a1)
    else if not (get_precedence a1.ai_addr == get_precedence a2.ai_addr)
    then sub (get_precedence a2.ai_addr) (get_precedence a1.ai_addr)
    else if not (get_scope a1.ai_addr == get_scope a2.ai_addr)
    then sub (get_scope a1.ai_addr) (get_scope a2.ai_addr)
    else if (has_prefix a1 && has_prefix a2) && not (prefixlen a1 == prefixlen a2)
    then sub (prefixlen a2) (prefixlen a1)
    else sub a1.original_order a2.original_order
