-- ===== src/Kiosk.antt =====
-- public/kiosk-control-lock.js: the page of a kiosk, which offers the actions on a production run and
-- polls the service.
pub mod Actions
pub mod Offers
pub mod Offered
pub mod Poller
pub mod Polling
