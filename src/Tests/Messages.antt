-- ===== src/Tests/Messages.antt =====
-- Messages for the tests.
use c_ares.Base.{ℕ, List, [], ◌∷◌, ◌++◌}

-- a header with `n` answers, and the question "a.b" of type `t` in class IN
abbrev pub asked : ℕ → ℕ → List ℕ
asked n t =
    0x12 ∷ 0x34 ∷ 0x81 ∷ 0x80 ∷ 0 ∷ 1 ∷ 0 ∷ n ∷ 0 ∷ 0 ∷ 0 ∷ 0 ∷ 1 ∷ b'a' ∷ 1 ∷ b'b' ∷ 0 ∷ 0 ∷ t ∷ 0
    ∷ 1 ∷ []

-- the start of a record for the name of the question, of type `h * 256 + t` with `n` bytes of data
abbrev pub record_head : ℕ → ℕ → ℕ → List ℕ
record_head h t n = 0xc0 ∷ 12 ∷ h ∷ t ∷ 0 ∷ 1 ∷ 0 ∷ 0 ∷ 0 ∷ 60 ∷ 0 ∷ n ∷ []

abbrev pub mx_message : List ℕ
mx_message = asked 1 15 ++ record_head 0 15 6 ++ (0 ∷ 10 ∷ 1 ∷ b'm' ∷ 0xc0 ∷ 12 ∷ [])

abbrev pub srv_message : List ℕ
srv_message = asked 1 33 ++ record_head 0 33 8 ++ (0 ∷ 1 ∷ 0 ∷ 2 ∷ 0 ∷ 80 ∷ 0xc0 ∷ 12 ∷ [])

abbrev pub naptr_message : List ℕ
naptr_message =
    asked 1 35 ++ record_head 0 35 10 ++ (0 ∷ 1 ∷ 0 ∷ 2 ∷ 1 ∷ b'u' ∷ 1 ∷ b's' ∷ 0 ∷ 0 ∷ [])

abbrev pub uri_message : List ℕ
uri_message = asked 1 255 ++ record_head 1 0 6 ++ (0 ∷ 1 ∷ 0 ∷ 2 ∷ b'x' ∷ b'y' ∷ [])

abbrev pub caa_message : List ℕ
caa_message = asked 1 255 ++ record_head 1 1 5 ++ (0 ∷ 1 ∷ b't' ∷ b'v' ∷ b'w' ∷ [])

abbrev pub txt_message : List ℕ
txt_message = asked 1 16 ++ record_head 0 16 5 ++ (2 ∷ b'h' ∷ b'i' ∷ 1 ∷ b'x' ∷ [])

abbrev pub soa_message : List ℕ
soa_message =
    asked 1 6
    ++ record_head 0 6 24
    ++ (0xc0 ∷ 12 ∷ 0xc0 ∷ 12 ∷ 0 ∷ 0 ∷ 0 ∷ 1 ∷ 0 ∷ 0 ∷ 0 ∷ 2 ∷ 0 ∷ 0 ∷ 0 ∷ 3 ∷ 0 ∷ 0 ∷ 0 ∷ 4 ∷ 0
        ∷ 0 ∷ 1 ∷ 0 ∷ [])

abbrev pub ns_message : List ℕ
ns_message = asked 1 2 ++ record_head 0 2 4 ++ (1 ∷ b'n' ∷ 0xc0 ∷ 12 ∷ [])

abbrev pub ptr_message : List ℕ
ptr_message = asked 1 12 ++ record_head 0 12 4 ++ (1 ∷ b'p' ∷ 0xc0 ∷ 12 ∷ [])
