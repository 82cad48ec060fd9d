-- ===== src/Expand/Total.antt =====
-- The expansion of a name is memory safe and total on every message, whatever its bytes are.
use c_ares.Base.{
  ℕ, ◌+◌, ◌≤◌, ◌≡◌, refl, arith, Bool, not, leb, false, ap, List, length, ◌⊎◌, inl, inr, ◌==◌,
}
use c_ares.Result.{Status, ebadname, ebadresp, ebadstr, enomem, Result}
use c_ares.Result.Ensures.{Ensures, returns, fails, Ensures-relax}
use c_ares.Cmd.Put.{put-Ensures}
use c_ares.Cmd.Safe.{Safe, Safe-pure, Safe-lift, Safe-bind, Safe-if, Safe-guard, Safe-malloc}
use c_ares.Wire.{peek-Ensures}
use c_ares.Wire.Copy.{strncpy-Ensures}
use c_ares.Name.Total.{name_length-NameFits, terminate-Ensures}
use c_ares.Expand.{
  expand_name_validated, expand_name, for_response, expand_name_for_response, expand_string,
}

-- the errors of `ares_expand_name`
abbrev pub IsNameError : Status → Type 0
IsNameError s = (s ≡ ebadname) ⊎ (s ≡ enomem)

-- The encoded name that `*enclen` measures is not empty and ends inside the message.
abbrev pub IsEncoded : ℕ → ℕ → List ℕ × ℕ → Type 0
IsEncoded alen encoded x = (1 ≤ x.1) × (encoded + x.1 ≤ alen)

-- For an `alen` up to the size of the message's block, whatever the bytes of the message, loops of
-- compression pointers included, and whatever the allocator answers, `expand_name_validated` ends
-- with no access outside the message or its block. It fails with ARES_EBADNAME or ARES_ENOMEM, or
-- returns an encoded length that is not 0 and ends inside the message.
pub expand_name_validated-Safe :
    (hostname : Bool) (abuf : List ℕ) (alen encoded : ℕ)
    → alen ≤ length abuf
    → Safe IsNameError (IsEncoded alen encoded) (expand_name_validated hostname abuf alen encoded)
unfolding expand_name_validated
expand_name_validated-Safe hostname abuf alen encoded inside =
    Safe-bind
      (Safe-lift
        (Ensures-relax (name_length-NameFits hostname abuf alen encoded inside) λ s e. inl e))
      λ nlen fit. Safe-bind (Safe-malloc (nlen + 1) (inr refl)) λ s fresh.
        Safe-if (nlen == 0)
          (λ z. Safe-bind (Safe-lift (put-Ensures 0 s nlen (ground arith))) λ q left.
            Safe-bind (Safe-lift (peek-Ensures abuf encoded (ground (arith, fit.starts_inside))))
              λ c at. Safe-pure (ground (arith, fit.pointer_inside c at)))
          (λ nz.
            Safe-bind
              (Safe-lift
                (Ensures-relax (fit.fills s (ground arith) (ground arith)) λ s e. absurd e))
              λ y w.
                Safe-bind
                  (Safe-lift
                    (Ensures-relax (terminate-Ensures y.0 (ground (arith))) λ s e. absurd e))
                  λ text l. Safe-pure (w.1, w.2))

pub expand_name-Safe :
    (abuf : List ℕ) (alen encoded : ℕ)
    → alen ≤ length abuf
    → Safe IsNameError (IsEncoded alen encoded) (expand_name abuf alen encoded)
unfolding expand_name
expand_name-Safe = expand_name_validated-Safe false

-- the errors of `ares__expand_name_for_response`
abbrev pub IsResponseError : Status → Type 0
IsResponseError s = (s ≡ ebadresp) ⊎ (s ≡ enomem)

for_response-Ensures :
    {A : Type 0} {P : A → Type 0} {r : Result A}
    → Ensures IsNameError P r
    → Ensures IsResponseError P (for_response r)
for_response-Ensures (returns p) = returns p
for_response-Ensures (fails {s} (inl e)) = rw e (fails (inl refl))
for_response-Ensures (fails {s} (inr e)) = rw e (fails (inr refl))

-- For an `alen` up to the size of the message's block, `expand_name_for_response` ends with no
-- access outside the message or its block. It fails with ARES_EBADRESP or ARES_ENOMEM only, never
-- with ARES_EBADNAME, or returns an encoded length that is not 0 and ends inside the message.
pub expand_name_for_response-Safe :
    (hostname : Bool) (abuf : List ℕ) (alen encoded : ℕ)
    → alen ≤ length abuf
    → Safe IsResponseError
        (IsEncoded alen encoded)
        (expand_name_for_response hostname abuf alen encoded)
unfolding expand_name_for_response
expand_name_for_response-Safe hostname abuf alen encoded inside = record {
  run = λ h.
      for_response-Ensures ((expand_name_validated-Safe hostname abuf alen encoded inside).run h);
}

-- the errors of `ares_expand_string`
abbrev pub IsStringError : Status → Type 0
IsStringError s = (s ≡ ebadstr) ⊎ (s ≡ enomem)

-- For an `alen` up to the size of the message's block and a string that starts in the message, or
-- just behind it, `expand_string` ends with no access outside the message or its block. It fails
-- with ARES_EBADSTR or ARES_ENOMEM, or returns an encoded length that ends inside the message and
-- is one more than the number of bytes of the text.
pub expand_string-Safe :
    (abuf : List ℕ) (alen encoded : ℕ)
    → alen ≤ length abuf
    → encoded ≤ alen
    → Safe IsStringError
        (λ x. (encoded + x.1 ≤ alen) × (length x.0 + 1 ≡ x.1))
        (expand_string abuf alen encoded)
unfolding expand_string
expand_string-Safe abuf alen encoded inside start =
    Safe-guard (not (encoded == alen)) ebadstr (inl refl) λ more.
      Safe-bind (Safe-lift (peek-Ensures abuf encoded (ground arith))) λ elen at.
        Safe-guard (leb (encoded + elen + 1) alen) ebadstr (inl refl) λ fits.
          Safe-bind (Safe-malloc (elen + 1) (inr refl)) λ s fresh.
            Safe-bind
              (Safe-lift (strncpy-Ensures abuf (encoded + 1) elen s 1 (ground arith) (omega arith)))
              λ q w.
                Safe-bind (Safe-lift (put-Ensures 0 q 0 (omega arith)))
                  λ _ _. Safe-pure (ground arith, ground (arith, ap length fresh.1))
