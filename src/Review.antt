-- ===== src/Review.antt =====
-- People who review drafts: apps/api/src/support/support.service.ts (`Drafts`),
-- apps/api/src/approvals/approvals.controller.ts (`Approvals`) and `createOutboundForApprovedDraft` of
-- apps/api/src/channels/channels.service.ts (`Outbound`), on the tables of `Defs`.
pub mod Defs
pub mod Drafts
pub mod Outbound
pub mod Approvals
pub mod Balance
pub mod Rows
pub mod Sends
mod Tests
