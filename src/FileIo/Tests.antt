-- ===== src/FileIo/Tests.antt =====
-- The page I/O of file_io.c on an empty file.
use cs_lab.Base.{◌≡◌, refl, some}
use cs_lab.Posix.{File}
use cs_lab.PageFile.Idle.{idle}
use cs_lab.FileIo.{hello, main}
use cs_lab.FileIo.Pages.{main-prints}

abbrev empty : File
empty = idle (λ _. 0) 0 0

main-prints_example : main empty ≡ some hello
main-prints_example = main-prints empty refl
