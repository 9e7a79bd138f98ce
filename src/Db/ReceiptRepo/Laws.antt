-- ===== src/Db/ReceiptRepo/Laws.antt =====
-- The receipts that the program makes can be stored.
use kenshu_elaris_project_pa.Go.Time.{Time}
use kenshu_elaris_project_pa.Document.Receipt.{Receipt}
use kenshu_elaris_project_pa.Db.Collection.{Collection}
use kenshu_elaris_project_pa.Dto
use kenshu_elaris_project_pa.Dto.PayWithCardResponse.{PayWithCardResponse}
