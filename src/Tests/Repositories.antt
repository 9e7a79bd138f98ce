-- ===== src/Tests/Repositories.antt =====
-- Runs of the repositories, and an identifier.
use kenshu_elaris_project_pa.Base.{◌≡◌, refl, ◌++◌, length, All, arith}
use kenshu_elaris_project_pa.Go.Text.{GoString, lit, remove_byte}
use kenshu_elaris_project_pa.Go.Time.{format_date}
use kenshu_elaris_project_pa.Go.Call.{ok}
use kenshu_elaris_project_pa.Errors.{foreign}
use kenshu_elaris_project_pa.Document.Receipt.{Receipt}
use kenshu_elaris_project_pa.Db.Collection.{Collection, no_documents, inserted, matched}
use kenshu_elaris_project_pa.App.Util.{generate_human_friendly_id}
use kenshu_elaris_project_pa.App.Util.Laws.{Occurs, generate_human_friendly_id-ok}
use kenshu_elaris_project_pa.Tests.Fixtures.{Env, noon, start}
use kenshu_elaris_project_pa.Tests.Services.{entropy}

-- A collection of receipts that takes every document.
abbrev receipts : Collection Env Receipt
receipts = record {
  find_one = λ f e. (no_documents (foreign (lit "none")), e);
  insert_one = λ r e. (inserted 9, e);
  update_one = λ f u e. (matched 0, e);
  err_no_documents = foreign (lit "none");
}

generate_human_friendly_id-ok_example :
    (suffix : GoString) × ((generate_human_friendly_id entropy (lit "INV") noon start).0
      ≡ ok (lit "INV" ++ (lit "-" ++ (format_date noon ++ (lit "-" ++ suffix)))))
    × (length suffix ≡ 6)
    × All (Occurs (remove_byte b'-' (lit "ab-cd"))) suffix
unfolding lit remove_byte
generate_human_friendly_id-ok_example =
    generate_human_friendly_id-ok entropy (lit "INV") noon start refl refl (omega arith)
      (omega arith)
