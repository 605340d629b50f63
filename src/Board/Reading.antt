-- ===== src/Board/Reading.antt =====
-- Files as the file system serves them: what has been read of the open file, and what comes next.
use alonzo_bootloader_zephyr.Base.{ℕ, ◌≤◌, ◌≡◌, true, List, [], ◌∷◌, ◌++◌, length, ok}
use alonzo_bootloader_zephyr.Board.{
  Trace, FilePath, Platform, opened, closed, bytes_read, read_failed, sought,
}

-- What has been read since the file was opened or rewound.
abbrev pub since_open : Trace → List ℕ
since_open [] = []
since_open (opened path true ∷ t) = []
since_open (sought true ∷ t) = []
since_open (bytes_read bytes ∷ t) = since_open t ++ bytes
since_open (_ ∷ t) = since_open t

-- The file with the given path is the open one, and every read and seek since has succeeded.
abbrev pub IsOpen : FilePath → Trace → Type 0
IsOpen path [] = ⊥
IsOpen path (opened path' done ∷ t) = (path' ≡ path) × (done ≡ true)
IsOpen path (closed ∷ t) = ⊥
IsOpen path (read_failed ∷ t) = ⊥
IsOpen path (sought done ∷ t) = (done ≡ true) × IsOpen path t
IsOpen path (_ ∷ t) = IsOpen path t

-- The file is open, and `done` has been read of it.
abbrev pub ReadTo : FilePath → List ℕ → Trace → Type 0
ReadTo path done t = IsOpen path t × (since_open t ≡ done)

-- What the file system documents of a file with the bytes `file`: its size; a read of the open file
-- gives bytes that come next, and none only at the end.
pub record Offers (p : Platform) (path : FilePath) (file : List ℕ) : Type 0 where
  pub size : (t : Trace) (n : ℕ) → p.stat t path ≡ ok n → n ≡ length file
  pub next :
      (t : Trace) (count : ℕ) (rest bytes : List ℕ)
      → IsOpen path t
      → since_open t ++ rest ≡ file
      → p.read t count ≡ ok bytes
      → (later : List ℕ) × (rest ≡ bytes ++ later)
  pub last :
      (t : Trace) (count : ℕ) (rest : List ℕ)
      → 1 ≤ count
      → IsOpen path t
      → since_open t ++ rest ≡ file
      → p.read t count ≡ ok []
      → rest ≡ []
