-- ===== src/Helpers.antt =====
-- `readFile` of helpers.hpp. `panic` is an outcome of Outcome.antt; what `println` prints is left out.
use cpp_station.Prelude.{ℕ, Option, none, some, List, []}

-- `file` holds the bytes of the file, if it can be opened; if not, a message is printed.
unfoldable pub read_file : Option (List ℕ) → List ℕ
read_file none = []
read_file (some bytes) = bytes
