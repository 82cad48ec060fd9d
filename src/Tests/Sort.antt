-- ===== src/Tests/Sort.antt =====
-- Runs of the comparison of addresses.
use c_ares.Base.{ℕ, ◌≡◌, ◌≢◌, refl, arith, true, pos, negsuc, neg, is_neg, ◌==◌, if◌then◌else◌}
use c_ares.Sort.{
  inet, inet6, SortElem, rfc6724_compare, get_scope, get_label, get_precedence, scope_match,
  label_match, has_prefix, prefixlen, common_prefix_len, prefix_loop, first_bit, zeros,
  in6_multicast, in6_loopback, in6_linklocal, in6_sitelocal, in6_v4mapped, in6_v4compat, in6_ula,
  in6_teredo, in6_6to4, in6_6bone,
}
use c_ares.Sort.Order.{rfc6724_compare_strict, rfc6724_compare_trans}

-- the definitions that the runs compute
sort_computed : ℕ
unfolding rfc6724_compare get_scope get_label get_precedence scope_match label_match has_prefix
    prefixlen common_prefix_len prefix_loop first_bit zeros in6_multicast in6_loopback in6_linklocal
    in6_sitelocal in6_v4mapped in6_v4compat in6_ula in6_teredo in6_6to4 in6_6bone
sort_computed = 0

-- 2001:db8::n
abbrev doc : ℕ → ℕ → ℕ
doc n i =
    if i == 0
    then 0x20
    else if i == 1
    then 0x01
    else if i == 2
    then 0x0d
    else if i == 3
    then 0xb8
    else if i == 15
    then n
    else 0

-- ::ffff:10.0.0.n
abbrev mapped : ℕ → ℕ → ℕ
mapped n i =
    if i == 10
    then 0xff
    else if i == 11
    then 0xff
    else if i == 12
    then 10
    else if i == 15
    then n
    else 0

abbrev v6 : ℕ → ℕ → SortElem
v6 n k = record {
  ai_addr = inet6 (doc n);
  has_src_addr = 1;
  src_addr = inet6 (doc 1);
  original_order = k;
}

abbrev v4 : ℕ → SortElem
v4 k = record {
  ai_addr = inet 0x0a000001;
  has_src_addr = 1;
  src_addr = inet 0x0a000002;
  original_order = k;
}

abbrev v4_mapped : ℕ → ℕ → SortElem
v4_mapped n k = record {
  ai_addr = inet6 (mapped n);
  has_src_addr = 1;
  src_addr = inet6 (mapped 1);
  original_order = k;
}

longer_prefix_first : rfc6724_compare (v6 3 5) (v6 9 2) ≡ negsuc 1
unfolding sort_computed
longer_prefix_first = refl

v6_first : rfc6724_compare (v6 3 5) (v4 2) ≡ negsuc 4
unfolding sort_computed
v6_first = refl

-- With mapped addresses the comparison has a cycle.
cycle_1 : is_neg (rfc6724_compare (v4_mapped 3 3) (v4_mapped 9 1)) ≡ true
unfolding sort_computed
cycle_1 = refl

cycle_2 : is_neg (rfc6724_compare (v4_mapped 9 1) (v4 2)) ≡ true
unfolding sort_computed
cycle_2 = refl

cycle_3 : is_neg (rfc6724_compare (v4 2) (v4_mapped 3 3)) ≡ true
unfolding sort_computed
cycle_3 = refl

rfc6724_compare_strict_example :
    (rfc6724_compare (v6 3 6) (v6 3 5) ≡ neg (rfc6724_compare (v6 3 5) (v6 3 6)))
    × (rfc6724_compare (v6 3 5) (v6 3 6) ≢ pos 0)
rfc6724_compare_strict_example = rfc6724_compare_strict (v6 3 5) (v6 3 6) (λ e. omega (arith, e))

rfc6724_compare_trans_example : is_neg (rfc6724_compare (v6 3 5) (v4 2)) ≡ true
unfolding sort_computed
rfc6724_compare_trans_example =
    rfc6724_compare_trans (v6 3 5) (v6 9 2) (v4 2) refl refl tt refl refl
