-- ===== src/Archive/Laid.antt =====
-- Where the members of a file lie in it.
use fyra.Prelude.{[]}
use fyra.Archive.Reader.{Reading}

abbrev pub first_reading : Reading
first_reading = record { offset = 8; long_names = []; members = [] }
