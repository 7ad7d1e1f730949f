-- ===== src/Certificate.antt =====
-- Certificate orders (src/certificate/certificate-order.service.ts).
pub mod Order
pub mod KeyEncryption
