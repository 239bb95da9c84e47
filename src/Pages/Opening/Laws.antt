-- ===== src/Pages/Opening/Laws.antt =====
-- A search that begins on the notice page.
use yulong.Notice
use yulong.Notice.{Notice}
