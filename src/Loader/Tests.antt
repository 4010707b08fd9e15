-- ===== src/Loader/Tests.antt =====
-- A program of one segment in the page behind its stack, and the theorem at it.
use boring_os_ssaha.Prelude.{
  Option, none, ℕ, ◌+◌, ◌*◌, ◌%◌, ltb, if◌then◌else◌, some, List, [], ◌∷◌,
}
use boring_os_ssaha.PAlloc.{pgsize, directmap_base}
use boring_os_ssaha.Process.{stkbase, stklen}
use boring_os_ssaha.PMap.{Space, map_pages}
use boring_os_ssaha.O2fs.File.{Transfer, done, failed, running}
use boring_os_ssaha.O2fs.File as o2fs_file
use boring_os_ssaha.Loader.{Fill, store, Ehdr, Phdr}

abbrev page_at : ℕ → ℕ
page_at k = directmap_base + pgsize * k

-- As many free pages as the tables of one page take.
abbrev fresh_space : Space
fresh_space = record {
  root = page_at 1;
  entries = λ t i. 0;
  free = page_at 2 ∷ page_at 3 ∷ page_at 4 ∷ [];
}

-- The stack, and the page behind it.
abbrev base : ℕ
base = stkbase

abbrev code : ℕ
code = stkbase + stklen

abbrev program : Space
program = (map_pages 17 fresh_space 0x100000 base 2).0

-- A file of two blocks of 512 bytes, 600 bytes long: the byte `i` of the block `b` is (b + i) % 256.
abbrev byte : ℕ → ℕ → ℕ
byte b i = (b + i) % 256

abbrev resolve : ℕ → Option (ℕ → ℕ)
resolve b = if ltb b 2 then some (byte b) else none

abbrev stored : (ℕ → ℕ) → ℕ → Transfer → ℕ → ℕ
stored m raddr (done bytes) = store m raddr bytes
stored m raddr failed = m
stored m raddr running = m

abbrev read : Fill
read m raddr offset len = stored m raddr (o2fs_file.read 512 600 resolve offset len)

abbrev header : Ehdr
header = record {
  mag0 = 0x7f;
  mag1 = 0x45;
  mag2 = 0x4c;
  mag3 = 0x46;
  class = 2;
  machine = 62;
  entry = code + 0x100;
}

-- The bytes of the segment are in both blocks.
abbrev segments : List Phdr
segments = record { type = 1; offset = 500; vaddr = code + 0x100; filesz = 32; memsz = 64 } ∷ []
