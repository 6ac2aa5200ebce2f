-- ===== src/Engine/Handles.antt =====
-- What a scan of a descriptor (aegorx/engine.py, `scan_file_descriptor`) can return.
use native.Mathlib.Decide.{ℕ_discrete}
use aegor_x.Prelude.{ℕ, ◌≡◌, false, List, ◌∷◌, ◌≤◌, arith, mem, mem-discard}
use aegor_x.Engine.World.{Engine, Hashes, ok, raised}
use aegor_x.Engine.Descriptor.{Fd, scan_file_descriptor}

-- Where the file is within the size limit and its status, its copy, its hashes and the seek are had, a
-- scan of a descriptor ends in the exception EBADF, whatever was read and found: the `with` block
-- has closed the copy when the `finally` clause closes it again.
pub scan_file_descriptor_raises :
    (e : Engine) (x : Fd) (held : List ℕ) (size n : ℕ) (h : Hashes) (u : Unit)
    → x.fstat ≡ ok size
    → size ≤ e.max_file_size
    → x.dup ≡ ok n
    → x.hashes ≡ ok h
    → x.lseek ≡ ok u
    → (scan_file_descriptor e x held).result ≡ raised "Bad file descriptor"
unfolding scan_file_descriptor
scan_file_descriptor_raises e x held size n h u p small q r s =
    ground (arith, mem-discard ℕ_discrete n n (n ∷ held))

-- A copy that the scan has made is not open when it ends, on any path.
pub scan_file_descriptor_closes :
    (e : Engine) (x : Fd) (held : List ℕ) (n : ℕ)
    → x.dup ≡ ok n
    → mem ℕ_discrete n held ≡ false
    → mem ℕ_discrete n (scan_file_descriptor e x held).held ≡ false
unfolding scan_file_descriptor mem
scan_file_descriptor_closes e x held n q fresh =
    ground (arith, mem-discard ℕ_discrete n n (n ∷ held))
