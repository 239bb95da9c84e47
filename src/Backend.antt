-- ===== src/Backend.antt =====
-- The web backend (web/controllers, web/models, web/utils), as far as the pages meet it: what lets a
-- request through, the forms that the requests' bodies are read into, the settings that they
-- change, and the queue of a task. Its text is UTF-8; the model has it as the pages do, in units.
pub mod Forms
pub mod Access
pub mod Store
pub mod Settings
pub mod Net
pub mod Queue
mod Tests
