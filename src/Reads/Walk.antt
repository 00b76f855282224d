-- ===== src/Reads/Walk.antt =====
-- The reads that the hardware makes of the chain that fs_rdma_do_reads of src/c/transport.c posts.
use rdma_cpp.Common.{
  ℕ, zero, suc, ◌+◌, ◌^◌, ◌<◌, ◌≡◌, Option, none, some, List, [], ◌∷◌, ◌++◌, ◌==◌, length,
  get_elem?, if◌then◌else◌,
}
use rdma_cpp.Common.Cint.{Ptr}
use rdma_cpp.Reads.Foreign.{ReadChunk, Sge, Opcode, rdma_read, SendWr}

-- A read of `length` bytes at the address `remote`, under the key `key`, to the address `local`.
pub record Transfer : Type 0 where
  pub local : Ptr
  pub length : ℕ
  pub remote : ℕ
  pub key : ℕ

abbrev transfer : Ptr × ℕ → ℕ × ℕ → Transfer
transfer (p, n) (a, k) = record { local = p; length = n; remote = a; key = k }

abbrev onto : Option Sge → (a k : ℕ) → (ℕ → List Transfer) → List Transfer
onto none a k rest = []
onto (some s) a k rest = transfer (s.addr, s.length) (a, k) ∷ rest (a + s.length)

-- A read into `num_sge` pieces, from piece `j` on, of the memory from `a` on.
abbrev scatter : List Sge → (num_sge j a k : ℕ) → List Transfer
scatter list zero j a k = []
scatter list (suc n) j a k = onto (get_elem? list j) a k (λ b. scatter list n (j + 1) b k)

-- What a request reads: it must be a read.
abbrev moved : Opcode → List Transfer → List Transfer
moved rdma_read ts = ts
moved _ ts = []

-- The request, its reads into the pieces of memory that it names, and the requests after it.
abbrev enter : List Sge → Option SendWr → (ℕ → List Transfer) → List Transfer
enter list none rest = []
enter list (some w) rest =
    moved w.opcode (scatter list w.num_sge w.sg_list w.remote_addr w.rkey) ++ following w.next
  where
    following : Option ℕ → List Transfer
    following none = []
    following (some j) = rest j

-- From request `i` on, along `next` and `sg_list`, for as many requests as the fuel.
abbrev pub walk : ℕ → List SendWr → List Sge → ℕ → List Transfer
walk zero wrs list i = []
walk (suc n) wrs list i = enter list (get_elem? wrs i) (λ j. walk n wrs list j)

-- The reads that the chunks before the end ask for, into the memory from `ptr` on.
abbrev pub transfers : Ptr → List ReadChunk → List Transfer
transfers ptr [] = []
transfers ptr (c ∷ cs) =
    if c.rc_discrim == 0
    then []
    else transfer (ptr, c.rs_length) (c.rs_offset, c.rs_handle) ∷ transfers (ptr + c.rs_length) cs

abbrev pairs : List (Ptr × ℕ) → List (ℕ × ℕ) → List Transfer
pairs [] rs = []
pairs (l ∷ ls) [] = []
pairs (l ∷ ls) (r ∷ rs) = transfer l r ∷ pairs ls rs

-- `rest` is what stands in `xs` from `i` on.
abbrev From : {A : Type 0} → List A → ℕ → List A → Type 0
From xs i rest = (j : ℕ) → get_elem? xs (i + j) ≡ get_elem? rest j

-- The length of every chunk of the array is a `uint32_t`.
abbrev pub AllShort : List ReadChunk → Type 0
AllShort [] = Unit {0}
AllShort (c ∷ cs) = (c.rs_length < 2 ^ 32) × AllShort cs
