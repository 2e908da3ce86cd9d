-- ===== src/Web.antt =====
-- The client in web/: the logic of its components. React and the browser call the handlers.
pub mod PtzControls
pub mod Api
pub mod ManagerBar
pub mod RecordingsBrowser
