-- ===== src/Swap/File.antt =====
-- src/swap.c: the functions of the C library that it calls on its file, and what it relies on.
use simulador_memoria_virtua.Base.{ℕ, ◌+◌, ◌<◌, ◌≡◌, Bool, true, copy}
use simulador_memoria_virtua.PhysicalMemory.{Page}

-- `fseek(file, offset, SEEK_SET) == 0`, `fwrite(page, 1, size, file)`,
-- `fread(buffer, 1, size, file)`, `fputc(byte, file) != EOF` and `fflush(file) == 0`.
pub record FileOperations (F : Type 0) : Type 0 where
  pub fseek : F → ℕ → F × Bool
  pub fwrite : F → Page → ℕ → F × ℕ
  pub fread : F → Page → ℕ → F × Page × ℕ
  pub fputc : F → ℕ → F × Bool
  pub fflush : F → F × Bool

-- What is relied on, in terms of a file's bytes and its position. Calls of fseek and fflush leave the
-- bytes as they are, also when they fail.
pub record IsFile {F : Type 0} (io : FileOperations F) (bytes : F → ℕ → ℕ) (position : F → ℕ)
    : Type 0 where
  pub seek_bytes : (f : F) (offset i : ℕ) → bytes (io.fseek f offset).0 i ≡ bytes f i
  pub seek_position :
      (f : F) (offset : ℕ) → (io.fseek f offset).1 ≡ true → position (io.fseek f offset).0 ≡ offset
  -- the bytes that were written lie from the position on
  pub write_bytes :
      (f : F) (page : Page) (size i : ℕ)
      → bytes (io.fwrite f page size).0 i
        ≡ copy (bytes f) (position f) (io.fwrite f page size).1 page i
  pub write_count-le : (f : F) (page : Page) (size : ℕ) → (io.fwrite f page size).1 < size + 1
  pub read_bytes :
      (f : F) (buffer : Page) (size i : ℕ) → bytes (io.fread f buffer size).0 i ≡ bytes f i
  pub read_page :
      (f : F) (buffer : Page) (size i : ℕ)
      → i < (io.fread f buffer size).2
      → (io.fread f buffer size).1 i ≡ bytes f (position f + i)
  pub flush_bytes : (f : F) (i : ℕ) → bytes (io.fflush f).0 i ≡ bytes f i
