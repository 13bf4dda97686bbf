-- ===== src/Pxsem/Main/Tests.antt =====
-- `main` with two items, a producer and a consumer.
use cs_primer.Prelude.{List, [], ◌∷◌}
use cs_primer.Posix.Text.{Str, codes}
use cs_primer.Posix.Reports.{Reports}
use cs_primer.Posix.Sample.{sample}
use cs_primer.Pxsem.Main.{prodcons3_main, prodcons4_main}
use cs_primer.Pxsem.MainOne.{
  prodcons1_main, prodcons2_main, multibuffer_main, semaphore_mains_report,
}

abbrev args : List Str
args = codes "prodcons" ∷ codes "2" ∷ codes "1" ∷ codes "1" ∷ []

semaphore_mains_report_example :
    Reports (prodcons1_main args (sample []) [])
    × Reports (prodcons2_main args (sample []) [])
    × Reports (prodcons3_main (λ i. 2) args (sample []) [])
    × Reports (prodcons4_main (λ i. 2) (λ i. 2) args (sample []) [])
    × Reports (multibuffer_main args (sample []) [])
semaphore_mains_report_example = semaphore_mains_report (λ i. 2) (λ i. 2) args (sample [])
