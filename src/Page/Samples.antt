-- ===== src/Page/Samples.antt =====
-- Small pages for the tests.
use cs_lab.Base.{ℕ, List, [], ◌∷◌, get_or}
use cs_lab.Page.Layout.{IsValid}
use cs_lab.Page.Init.{init_page-IsValid}
use cs_lab.Page.Insert.Outcome.{insert_record-IsValid}
use cs_lab.Page.Delete.{delete_record-IsValid}
use cs_lab.Memory.{Mem}
use cs_lab.Page.{init_page, insert_record, delete_record}

abbrev pub of_list : List ℕ → Mem
of_list xs k = get_or xs k 0

abbrev pub empty_page : Mem
empty_page = init_page (λ _. 7)

abbrev pub one_record : Mem
one_record = (insert_record empty_page (of_list (1 ∷ 2 ∷ 3 ∷ [])) 3).1

abbrev pub two_records : Mem
two_records = (insert_record one_record (of_list (4 ∷ 5 ∷ [])) 2).1

abbrev pub reused : Mem
reused = (insert_record (delete_record two_records 0).1 (of_list (6 ∷ 7 ∷ 8 ∷ 9 ∷ 10 ∷ [])) 5).1

pub empty-IsValid : IsValid empty_page
empty-IsValid = init_page-IsValid (λ _. 7)

pub one-IsValid : IsValid one_record
one-IsValid = insert_record-IsValid empty_page (of_list (1 ∷ 2 ∷ 3 ∷ [])) 3 empty-IsValid

pub two-IsValid : IsValid two_records
two-IsValid = insert_record-IsValid one_record (of_list (4 ∷ 5 ∷ [])) 2 one-IsValid

pub reused-IsValid : IsValid reused
reused-IsValid =
    insert_record-IsValid (delete_record two_records 0).1 (of_list (6 ∷ 7 ∷ 8 ∷ 9 ∷ 10 ∷ [])) 5
      (delete_record-IsValid two_records two-IsValid 0)
